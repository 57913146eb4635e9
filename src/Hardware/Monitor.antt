-- ===== src/Hardware/Monitor.antt =====
-- Rules that the hardware makes for the order of accesses: a monitor goes along a trace with what it
-- knows of the hardware, and says of each access whether it is allowed.
use rust_on_stm32_notebook.Common.{
  ℕ, zero, suc, ◌≡◌, refl, ap, ◌∙◌, Bool, true, false, if◌then◌else◌, List, [], ◌∷◌, ◌++◌,
  Bool-cases, inl, inr,
}
use rust_on_stm32_notebook.Hardware.{
  Value, Effect, modify, sample, Outcome, done, panic, waiting, M, pure, fail, chain, write, read,
  poll, is_set, ◌>>=◌,
}

module _ {F S : Type 0} (after : Effect F → S → S) (allowed : Effect F → S → Bool) where
  unfoldable pub respects : S → List (Effect F) → Bool
  respects s [] = true
  respects s (x ∷ t) = let rest = respects (after x s) t in if allowed x s then rest else false

  unfoldable pub state_after : S → List (Effect F) → S
  state_after s [] = s
  state_after s (x ∷ t) = state_after (after x s) t

  pub respects-append :
      (s : S) (t u : List (Effect F))
      → respects s t ≡ true
      → respects (state_after s t) u ≡ true
      → respects s (t ++ u) ≡ true
  unfolding respects state_after
  respects-append s [] u h k = k
  respects-append s (x ∷ t) u h k = elim (Bool-cases (allowed x s)) [
    | inl a ↦ rw a (respects-append (after x s) t u (rw a at h) k)
    | inr a ↦ cc (rw a at h)
  ]

  pub state_after-append :
      (s : S) (t u : List (Effect F)) → state_after s (t ++ u) ≡ state_after (state_after s t) u
  unfolding state_after
  state_after-append s [] u = refl
  state_after-append s (x ∷ t) u = state_after-append (after x s) t u

  -- A run is allowed from `s` on, and if it ends leaves `s'`.
  pub record Keeps {A : Type 0} (s s' : S) (m : M F A) : Type 0 where
    pub safe : (reads : List ℕ) → respects s (m reads).trace ≡ true
    pub leaves :
        (reads : List ℕ) (a : A) → (m reads).outcome ≡ done a → state_after s (m reads).trace ≡ s'

  pub pure-Keeps : {A : Type 0} (s : S) (a : A) → Keeps s s (pure a)
  unfolding respects state_after
  pure-Keeps s a = record { safe = λ reads. refl; leaves = λ reads b e. refl }

  pub write-Keeps :
      (s : S) (fields : List (F × Value))
      → allowed (modify fields) s ≡ true
      → Keeps s (after (modify fields) s) (write fields)
  unfolding respects state_after
  write-Keeps s fields h = record { safe = λ reads. rw h; leaves = λ reads b e. refl }

  module _ {A B : Type 0} (f : A → M F B) (s s' s'' : S) (q : (a : A) → Keeps s' s'' (f a)) where
    chain_safe :
        (o : Outcome A) (t : List (Effect F)) (rest : List ℕ)
        → respects s t ≡ true
        → ((a : A) → o ≡ done a → state_after s t ≡ s')
        → respects s (chain o t rest f).trace ≡ true
    chain_safe (done a) t rest h l =
        respects-append s t (f a rest).trace h (rw (l a refl) ((q a).safe rest))
    chain_safe panic t rest h l = h
    chain_safe waiting t rest h l = h

    chain_leaves :
        (o : Outcome A) (t : List (Effect F)) (rest : List ℕ) (b : B)
        → ((a : A) → o ≡ done a → state_after s t ≡ s')
        → (chain o t rest f).outcome ≡ done b
        → state_after s (chain o t rest f).trace ≡ s''
    chain_leaves (done a) t rest b l e =
        rw (state_after-append s t (f a rest).trace, l a refl) ((q a).leaves rest b e)
    chain_leaves panic t rest b l e = cc
    chain_leaves waiting t rest b l e = cc

  pub >>=-Keeps :
      {A B : Type 0} {m : M F A} {f : A → M F B} {s s' s'' : S}
      → Keeps s s' m
      → ((a : A) → Keeps s' s'' (f a))
      → Keeps s s'' (m >>= f)
  >>=-Keeps {m = m} {f = f} {s = s} {s' = s'} {s'' = s''} p q = record {
    safe = λ reads.
        chain_safe f s s' s'' q (m reads).outcome (m reads).trace (m reads).rest (p.safe reads)
          (p.leaves reads);
    leaves = λ reads b e.
        chain_leaves f s s' s'' q (m reads).outcome (m reads).trace (m reads).rest b
          (p.leaves reads) e;
  }

  pub read_then-Keeps :
      {B : Type 0} {f : F} {k : ℕ → M F B} {s s' : S}
      → ((v : ℕ) → allowed (sample f v) s ≡ true)
      → ((v : ℕ) → Keeps (after (sample f v) s) s' (k v))
      → Keeps s s' (read f >>= k)
  unfolding respects state_after
  read_then-Keeps {B = B} {f = f} {k = k} {s = s} {s' = s'} h q = record {
    safe = safe;
    leaves = leaves;
  }
    where
      safe : (reads : List ℕ) → respects s ((read f >>= k) reads).trace ≡ true
      safe [] = refl
      safe (v ∷ reads) = rw (h v) ((q v).safe reads)

      leaves :
          (reads : List ℕ) (b : B)
          → ((read f >>= k) reads).outcome ≡ done b
          → state_after s ((read f >>= k) reads).trace ≡ s'
      leaves [] b e = cc
      leaves (v ∷ reads) b e = (q v).leaves reads b e

  pub poll-Keeps :
      {f : F} {stop : ℕ → Bool} {s s' : S}
      → ((v : ℕ) → allowed (sample f v) s ≡ true)
      → ((v : ℕ) → stop v ≡ false → after (sample f v) s ≡ s)
      → ((v : ℕ) → stop v ≡ true → after (sample f v) s ≡ s')
      → Keeps s s' (poll f stop)
  unfolding poll respects state_after
  poll-Keeps {f = f} {stop = stop} {s = s} {s' = s'} h on off = record {
    safe = safe;
    leaves = leaves;
  }
    where
      safe : (reads : List ℕ) → respects s (poll f stop reads).trace ≡ true
      safe [] = refl
      safe (v ∷ reads) = elim (Bool-cases (stop v)) [
        | inl e ↦ rw (e, h v) refl
        | inr e ↦ rw (e, h v, on v e) (safe reads)
      ]

      leaves :
          (reads : List ℕ) (b : Unit {0})
          → (poll f stop reads).outcome ≡ done b
          → state_after s (poll f stop reads).trace ≡ s'
      leaves [] b e = cc
      leaves (v ∷ reads) b e = elim (Bool-cases (stop v)) [
        | inl q ↦ rw q (off v q)
        | inr q ↦ rw q (
            ap (λ x. state_after x (poll f stop reads).trace) (on v q) ∙ leaves reads b (rw q at e))
      ]

  -- a write before the rest of a program
  pub write_then-Keeps :
      {B : Type 0} {k : M F B} (s s' : S) (fields : List (F × Value))
      → allowed (modify fields) s ≡ true
      → Keeps (after (modify fields) s) s' k
      → Keeps s s' (write fields >>= λ _. k)
  write_then-Keeps s s' fields h q = >>=-Keeps (write-Keeps s fields h) (λ _. q)

  pub fail-Keeps : {A : Type 0} (s s' : S) → Keeps {A = A} s s' fail
  unfolding respects state_after
  fail-Keeps s s' = record { safe = λ reads. refl; leaves = λ reads a e. cc }

  pub if-Keeps :
      {A : Type 0} {m k : M F A} {s s' : S} (b : Bool)
      → Keeps s s' m
      → Keeps s s' k
      → Keeps s s' (if b then m else k)
  if-Keeps true p q = p
  if-Keeps false p q = q

  -- `while !flag {}`
  pub poll_set-Keeps :
      (f : F) (s s' : S)
      → ((v : ℕ) → allowed (sample f v) s ≡ true)
      → after (sample f zero) s ≡ s
      → ((v : ℕ) → after (sample f (suc v)) s ≡ s')
      → Keeps s s' (poll f is_set)
  poll_set-Keeps f s s' h stay go = poll-Keeps h on off
    where
      on : (v : ℕ) → is_set v ≡ false → after (sample f v) s ≡ s
      on zero e = stay
      on (suc v) e = cc

      off : (v : ℕ) → is_set v ≡ true → after (sample f v) s ≡ s'
      off zero e = cc
      off (suc v) e = go v

  -- a single read
  pub read-Keeps :
      (f : F) (s s' : S)
      → ((v : ℕ) → allowed (sample f v) s ≡ true)
      → ((v : ℕ) → after (sample f v) s ≡ s')
      → Keeps s s' (read f)
  unfolding respects state_after
  read-Keeps f s s' h go = record { safe = safe; leaves = leaves }
    where
      safe : (reads : List ℕ) → respects s (read f reads).trace ≡ true
      safe [] = refl
      safe (v ∷ reads) = rw (h v) refl

      leaves :
          (reads : List ℕ) (a : ℕ)
          → (read f reads).outcome ≡ done a
          → state_after s (read f reads).trace ≡ s'
      leaves [] a e = cc
      leaves (v ∷ reads) a e = go v
