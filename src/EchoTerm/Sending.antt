-- ===== src/EchoTerm/Sending.antt =====
-- What the transmit routines of s05_usart/src/bin/s05c02_echo_term.rs put on the line.
use rust_on_stm32_notebook.Common.{
  ℕ, ◌+◌, ◌≤◌, ◌≡◌, refl, List, [], ◌∷◌, ◌++◌, append_assoc, arith, length, length-append,
}
use rust_on_stm32_notebook.Hardware.{
  Value, bits, Effect, modify, sample, M, done, pure, poll, ◌>>=◌, count_set, is_set,
}
use rust_on_stm32_notebook.Hardware.Laws.{poll_ends}
use rust_on_stm32_notebook.EchoTerm.{Field, txe, dr, send_byte_to_usart1, send_bytes_to_usart1}

-- The bytes that one access hands to the transmitter: a plain write of the data register.
abbrev pub written : List (Field × Value) → List ℕ
written ((dr, bits v) ∷ []) = v ∷ []
written _ = []

abbrev pub bytes_of : Effect Field → List ℕ
bytes_of (modify fields) = written fields
bytes_of (sample f v) = []

-- The bytes that leave on TX, in order.
abbrev pub sent : List (Effect Field) → List ℕ
sent [] = []
sent (e ∷ t) = bytes_of e ++ sent t

pub sent-append : (s t : List (Effect Field)) → sent (s ++ t) ≡ sent s ++ sent t
sent-append [] t = refl
sent-append (e ∷ s) t = rw (sent-append s t, append_assoc (bytes_of e) (sent s) (sent t))

-- A run that sends `bytes` and returns `a`, whenever the transmitter answers ready often enough.
pub record Sends {A : Type 0} (m : M Field A) (a : A) (bytes : List ℕ) : Type 0 where
  pub outcome : (reads : List ℕ) → length bytes ≤ count_set reads → (m reads).outcome ≡ done a
  pub bytes_sent : (reads : List ℕ) → length bytes ≤ count_set reads → sent (m reads).trace ≡ bytes
  pub uses :
      (reads : List ℕ)
      → length bytes ≤ count_set reads
      → count_set (m reads).rest + length bytes ≡ count_set reads

pub pure-Sends : {A : Type 0} (a : A) → Sends (pure a) a []
pure-Sends a = record {
  outcome = λ reads h. refl;
  bytes_sent = λ reads h. refl;
  uses = λ reads h. omega arith;
}

poll_sends_none : (reads : List ℕ) → sent (poll txe is_set reads).trace ≡ []
unfolding poll
poll_sends_none [] = refl
poll_sends_none (ℕ.zero ∷ reads) = poll_sends_none reads
poll_sends_none (ℕ.suc v ∷ reads) = refl

module _ {A B : Type 0} {m : M Field A} (f : A → M Field B) {a : A} {b : B} {xs ys : List ℕ} where
  pub >>=-Sends : Sends m a xs → Sends (f a) b ys → Sends (m >>= f) b (xs ++ ys)
  >>=-Sends p q = record {
    outcome =
        λ reads h. rw (p.outcome reads (first reads h)) (q.outcome (m reads).rest (later reads h));
    bytes_sent = λ reads h. rw (p.outcome reads (first reads h)) (
        rw (
          sent-append,
          p.bytes_sent reads (first reads h),
          q.bytes_sent (m reads).rest (later reads h),
        ));
    uses = λ reads h. rw (p.outcome reads (first reads h)) (
        omega (
          arith,
          length-append xs ys,
          p.uses reads (first reads h),
          q.uses (m reads).rest (later reads h),
        ));
  }
    where
      first : (reads : List ℕ) → length (xs ++ ys) ≤ count_set reads → length xs ≤ count_set reads
      first reads h = omega (arith, length-append xs ys)

      later :
          (reads : List ℕ)
          → length (xs ++ ys) ≤ count_set reads
          → length ys ≤ count_set (m reads).rest
      later reads h = omega (arith, length-append xs ys, p.uses reads (first reads h))

pub send_byte-Sends : (b : ℕ) → Sends (send_byte_to_usart1 b) tt (b ∷ [])
unfolding send_byte_to_usart1
send_byte-Sends b = record {
  outcome = λ reads h. rw ((poll_ends txe reads h).0);
  bytes_sent = λ reads h. rw ((poll_ends txe reads h).0) (rw (sent-append, poll_sends_none reads));
  uses = λ reads h. rw ((poll_ends txe reads h).0) (omega (arith, (poll_ends txe reads h).1));
}

-- Sending a list of bytes sends exactly these, in order, and ends as soon as the transmitter has
-- been ready once for each.
pub send_bytes-Sends : (bs : List ℕ) → Sends (send_bytes_to_usart1 bs) tt bs
unfolding send_bytes_to_usart1
send_bytes-Sends [] = pure-Sends tt
send_bytes-Sends (b ∷ bs) =
    >>=-Sends (λ _. send_bytes_to_usart1 bs) (send_byte-Sends b) (send_bytes-Sends bs)
