-- ===== src/Hardware/Ensures.antt =====
-- The rules of Monitor for programs whose end depends on their result: a run is allowed, and if it
-- ends its result and the state of the monitor are related.
use rust_on_stm32_notebook.Common.{ℕ, ◌≡◌, refl, Bool, true, false, if◌then◌else◌, List, [], ◌∷◌}
use rust_on_stm32_notebook.Hardware.{
  Value, Effect, modify, sample, Outcome, done, panic, waiting, M, pure, fail, chain, write, read,
  ◌>>=◌,
}
use rust_on_stm32_notebook.Hardware.Monitor.{
  respects, state_after, respects-append, state_after-append, Keeps, write-Keeps,
}

module _ {F S : Type 0} (after : Effect F → S → S) (allowed : Effect F → S → Bool) where
  pub record Ensures {A : Type 0} (s : S) (post : A → S → Type 0) (m : M F A) : Type 0 where
    pub safe : (reads : List ℕ) → respects after allowed s (m reads).trace ≡ true
    pub leaves :
        (reads : List ℕ) (a : A)
        → (m reads).outcome ≡ done a
        → post a (state_after after allowed s (m reads).trace)

  pub pure-Ensures :
      {A : Type 0} {post : A → S → Type 0} (s : S) (a : A) → post a s → Ensures s post (pure a)
  unfolding respects state_after
  pure-Ensures {A = A} {post = post} s a h = record {
    safe = λ reads. refl;
    leaves = λ reads b e. returned b e;
  }
    where
      unchanged : (b : A) → done a ≡ done b → b ≡ a
      unchanged b e = cc

      returned : (b : A) → done a ≡ done b → post b s
      returned b e = let q = unchanged b e in rw q h

  pub fail-Ensures : {A : Type 0} {post : A → S → Type 0} (s : S) → Ensures s post fail
  unfolding respects state_after
  fail-Ensures s = record { safe = λ reads. refl; leaves = λ reads a e. cc }

  pub if-Ensures :
      {A : Type 0} {m k : M F A} {post : A → S → Type 0} (s : S) (b : Bool)
      → (b ≡ true → Ensures s post m)
      → (b ≡ false → Ensures s post k)
      → Ensures s post (if b then m else k)
  if-Ensures s true p q = p refl
  if-Ensures s false p q = q refl

  module _ {A B : Type 0} (f : A → M F B) (s : S) (mid : A → S → Type 0) (post : B → S → Type 0)
      (q : (a : A) (x : S) → mid a x → Ensures x post (f a)) where
    chain_safe :
        (o : Outcome A) (t : List (Effect F)) (rest : List ℕ)
        → respects after allowed s t ≡ true
        → ((a : A) → o ≡ done a → mid a (state_after after allowed s t))
        → respects after allowed s (chain o t rest f).trace ≡ true
    chain_safe (done a) t rest h l =
        respects-append after allowed s t (f a rest).trace h ((q a _ (l a refl)).safe rest)
    chain_safe panic t rest h l = h
    chain_safe waiting t rest h l = h

    chain_leaves :
        (o : Outcome A) (t : List (Effect F)) (rest : List ℕ) (b : B)
        → ((a : A) → o ≡ done a → mid a (state_after after allowed s t))
        → (chain o t rest f).outcome ≡ done b
        → post b (state_after after allowed s (chain o t rest f).trace)
    chain_leaves (done a) t rest b l e =
        rw (state_after-append after allowed s t (f a rest).trace)
          ((q a _ (l a refl)).leaves rest b e)
    chain_leaves panic t rest b l e = cc
    chain_leaves waiting t rest b l e = cc

  pub >>=-Ensures :
      {A B : Type 0} {m : M F A} {f : A → M F B} {s : S} {mid : A → S → Type 0}
      {post : B → S → Type 0}
      → Ensures s mid m
      → ((a : A) (x : S) → mid a x → Ensures x post (f a))
      → Ensures s post (m >>= f)
  >>=-Ensures {m = m} {f = f} {s = s} {mid = mid} {post = post} p q = record {
    safe = λ reads.
        chain_safe f s mid post q (m reads).outcome (m reads).trace (m reads).rest (p.safe reads)
          (p.leaves reads);
    leaves = λ reads b e.
        chain_leaves f s mid post q (m reads).outcome (m reads).trace (m reads).rest b
          (p.leaves reads) e;
  }

  -- a part that always leaves the same state, before the rest of a program
  pub part_then-Ensures :
      {A B : Type 0} {m : M F A} {f : A → M F B} {s s' : S} {post : B → S → Type 0}
      → Keeps after allowed s s' m
      → ((a : A) → Ensures s' post (f a))
      → Ensures s post (m >>= f)
  part_then-Ensures {s' = s'} p q =
      >>=-Ensures {mid = λ a x. x ≡ s'} (record { safe = p.safe; leaves = p.leaves })
        (λ a x e. rw e (q a))

  pub write_then-Ensures :
      {B : Type 0} {k : M F B} {post : B → S → Type 0} (s : S) (fields : List (F × Value))
      → allowed (modify fields) s ≡ true
      → Ensures (after (modify fields) s) post k
      → Ensures s post (write fields >>= λ _. k)
  write_then-Ensures s fields h q =
      part_then-Ensures (write-Keeps after allowed s fields h) (λ _. q)

  pub read_then-Ensures :
      {B : Type 0} {f : F} {k : ℕ → M F B} {s : S} {post : B → S → Type 0}
      → ((v : ℕ) → allowed (sample f v) s ≡ true)
      → ((v : ℕ) → Ensures (after (sample f v) s) post (k v))
      → Ensures s post (read f >>= k)
  unfolding respects state_after
  read_then-Ensures {B = B} {f = f} {k = k} {s = s} {post = post} h q = record {
    safe = safe;
    leaves = leaves;
  }
    where
      safe : (reads : List ℕ) → respects after allowed s ((read f >>= k) reads).trace ≡ true
      safe [] = refl
      safe (v ∷ reads) = rw (h v) ((q v).safe reads)

      leaves :
          (reads : List ℕ) (b : B)
          → ((read f >>= k) reads).outcome ≡ done b
          → post b (state_after after allowed s ((read f >>= k) reads).trace)
      leaves [] b e = cc
      leaves (v ∷ reads) b e = (q v).leaves reads b e
