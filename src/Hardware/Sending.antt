-- ===== src/Hardware/Sending.antt =====
-- What a program puts on a line: the bytes that its writes hand to the transmitter, and how many flags
-- it waits for on the way.
use rust_on_stm32_notebook.Common.{
  ℕ, zero, suc, ◌+◌, ◌≤◌, ◌≡◌, refl, ap, ◌∙◌, List, [], ◌∷◌, ◌++◌, append_assoc, arith,
}
use rust_on_stm32_notebook.Hardware.{
  Value, Effect, modify, sample, M, done, pure, write, poll, ◌>>=◌, count_set, is_set,
}
use rust_on_stm32_notebook.Hardware.Laws.{poll_ends}

module _ {F : Type 0} (written : List (F × Value) → List ℕ) where
  abbrev pub bytes_of : Effect F → List ℕ
  bytes_of (modify fields) = written fields
  bytes_of (sample f v) = []

  -- The bytes handed to the transmitter, in order.
  abbrev pub sent : List (Effect F) → List ℕ
  sent [] = []
  sent (e ∷ t) = bytes_of e ++ sent t

  pub sent-append : (s t : List (Effect F)) → sent (s ++ t) ≡ sent s ++ sent t
  sent-append [] t = refl
  sent-append (e ∷ s) t = rw (sent-append s t, append_assoc (bytes_of e) (sent s) (sent t))

  -- A run that sends `bytes` and returns `a`, whenever n of the answers have their flag, and that uses up
  -- n such answers.
  pub record Sends {A : Type 0} (m : M F A) (a : A) (n : ℕ) (bytes : List ℕ) : Type 0 where
    pub outcome : (reads : List ℕ) → n ≤ count_set reads → (m reads).outcome ≡ done a
    pub bytes_sent : (reads : List ℕ) → n ≤ count_set reads → sent (m reads).trace ≡ bytes
    pub uses :
        (reads : List ℕ) → n ≤ count_set reads → count_set (m reads).rest + n ≡ count_set reads

  pub pure-Sends : {A : Type 0} (a : A) → Sends (pure a) a 0 []
  pure-Sends a = record {
    outcome = λ reads h. refl;
    bytes_sent = λ reads h. refl;
    uses = λ reads h. omega arith;
  }

  pub write-Sends : (fields : List (F × Value)) → Sends (write fields) tt 0 (written fields ++ [])
  write-Sends fields = record {
    outcome = λ reads h. refl;
    bytes_sent = λ reads h. refl;
    uses = λ reads h. omega arith;
  }

  poll_sends_none : (f : F) (reads : List ℕ) → sent (poll f is_set reads).trace ≡ []
  unfolding poll
  poll_sends_none f [] = refl
  poll_sends_none f (zero ∷ reads) = poll_sends_none f reads
  poll_sends_none f (suc v ∷ reads) = refl

  pub poll-Sends : (f : F) → Sends (poll f is_set) tt 1 []
  poll-Sends f = record {
    outcome = λ reads h. (poll_ends f reads h).0;
    bytes_sent = λ reads h. poll_sends_none f reads;
    uses = λ reads h. (poll_ends f reads h).1;
  }

  pub >>=-Sends :
      {A B : Type 0} {m : M F A} (f : A → M F B) {a : A} {b : B} {j k : ℕ} {xs ys : List ℕ}
      → Sends m a j xs
      → Sends (f a) b k ys
      → Sends (m >>= f) b (j + k) (xs ++ ys)
  >>=-Sends {m = m} f {a = a} {b = b} {j = j} {k = k} {xs = xs} {ys = ys} p q = record {
    outcome =
        λ reads h. rw (p.outcome reads (first reads h)) (q.outcome (m reads).rest (later reads h));
    bytes_sent = λ reads h. rw (p.outcome reads (first reads h)) (
        sent-append (m reads).trace (f a (m reads).rest).trace
        ∙ ap (λ x. x ++ sent (f a (m reads).rest).trace) (p.bytes_sent reads (first reads h))
        ∙ ap (λ x. xs ++ x) (q.bytes_sent (m reads).rest (later reads h)));
    uses = λ reads h.
        rw (p.outcome reads (first reads h))
          (omega (arith, p.uses reads (first reads h), q.uses (m reads).rest (later reads h)));
  }
    where
      first : (reads : List ℕ) → j + k ≤ count_set reads → j ≤ count_set reads
      first reads h = omega arith

      later : (reads : List ℕ) → j + k ≤ count_set reads → k ≤ count_set (m reads).rest
      later reads h = omega (arith, p.uses reads (first reads h))

  -- the same run with its counts and bytes written differently
  pub same-Sends :
      {A : Type 0} {m : M F A} {a b : A} {j k : ℕ} {xs ys : List ℕ}
      → a ≡ b
      → j ≡ k
      → xs ≡ ys
      → Sends m a j xs
      → Sends m b k ys
  same-Sends e f g p = record {
    outcome = λ reads h. p.outcome reads (omega (arith, f)) ∙ ap done e;
    bytes_sent = λ reads h. p.bytes_sent reads (omega (arith, f)) ∙ g;
    uses = λ reads h. omega (arith, p.uses reads (omega (arith, f)), f);
  }

  -- a part without a result, and a write that sends nothing, before the rest of a program
  pub then-Sends :
      {B : Type 0} {m : M F (Unit {0})} {k : M F B} {b : B} {i j : ℕ} {xs ys : List ℕ}
      → Sends m tt i xs
      → Sends k b j ys
      → Sends (m >>= λ _. k) b (i + j) (xs ++ ys)
  then-Sends {k = k} p q = >>=-Sends (λ _. k) p q

  pub quiet-Sends :
      {B : Type 0} {k : M F B} {b : B} {j : ℕ} {ys : List ℕ} (fields : List (F × Value))
      → written fields ≡ []
      → Sends k b j ys
      → Sends (write fields >>= λ _. k) b j ys
  quiet-Sends {k = k} fields e q = record {
    outcome = q.outcome;
    bytes_sent = λ reads h. rw e (q.bytes_sent reads h);
    uses = q.uses;
  }
