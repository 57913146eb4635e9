-- ===== src/I2c/Receiving.antt =====
-- What the slave of s04_i2c/src/bin/s04c01_i2c1_to_i2c2.rs keeps and logs of the bytes it receives.
use rust_on_stm32_notebook.Common.{
  ℕ, suc, ◌+◌, ◌-◌, ◌%◌, ◌^◌, ◌≤◌, ◌<◌, ◌≡◌, refl, arith, Bool, true, false, if◌then◌else◌, List,
  [], ◌∷◌, ◌++◌, append_assoc, append-nil, Option, none, some, length, replicate, length-append,
  length-replicate, set-append, take-append, ltb, leb, All, Bool-cases, inl, inr,
}
use rust_on_stm32_notebook.Hardware.{Value, modify, sample, M, done, pure, ◌>>=◌}
use rust_on_stm32_notebook.I2c.{
  Field, dr, sr1, cr1_all, increment, Receiver, SlaveStatus, Shown, receive, show_data, show_if,
  i2c3_ev,
}

-- The slave after these bytes and so many interrupts.
abbrev pub holding : List ℕ → ℕ → Receiver
holding xs c = record {
  receive_buf = xs ++ replicate (16 - length xs) 0;
  receiving_index = length xs;
  receiving_int_cnt = c;
}

length-buf : (xs : List ℕ) → length xs ≤ 16 → length (xs ++ replicate (16 - length xs) 0) ≡ 16
length-buf xs h = omega (
  arith,
  length-append xs (replicate (16 - length xs) 0),
  length-replicate {A = ℕ} (16 - length xs) 0,
)

receive_lem :
    (xs : List ℕ) (c b : ℕ) (rest : List ℕ)
    → length xs < 16
    → b < 256
    → receive (holding xs c) (b ∷ rest) ≡ record {
      outcome = done (holding (xs ++ (b ∷ [])) c);
      trace = sample (dr 3) b ∷ [];
      rest = rest;
    }
unfolding receive
receive_lem xs c b rest h k =
    let small : b % 256 ≡ b = omega arith in
    let room : ltb (length xs) (length (xs ++ replicate (16 - length xs) 0)) ≡ true =
      ground (arith, length-buf xs (omega arith)) in
    let one_more : length (xs ++ (b ∷ [])) ≡ length xs + 1 = length-append xs (b ∷ []) in
    let left : 16 - length xs ≡ suc (15 - length xs) = omega arith in
    let left' : 16 - length (xs ++ (b ∷ [])) ≡ 15 - length xs = omega arith in
    rw (room, small, left', one_more) (rw (left, set-append xs (15 - length xs) b) refl)

show_data_lem :
    (xs : List ℕ) (c : ℕ) (reads : List ℕ)
    → length xs ≤ 16
    → show_data (holding xs c) reads ≡ record {
      outcome = done xs;
      trace = modify ((sr1 3, Value.dropped) ∷ []) ∷ modify ((cr1_all, Value.unchanged) ∷ []) ∷ [];
      rest = reads;
    }
unfolding show_data
show_data_lem xs c reads h =
    let inside : leb (length xs) (length (xs ++ replicate (16 - length xs) 0)) ≡ true =
      ground (arith, length-buf xs h) in
    rw (inside, take-append xs (replicate (16 - length xs) 0)) refl

-- The bytes that one interrupt takes from the data register.
abbrev pub taken : SlaveStatus → ℕ → List ℕ
taken s b = if s.rx_ne then b ∷ [] else []

-- What an interrupt leaves, from the bytes held after it.
abbrev leaves : List ℕ → ℕ → Bool → Shown
leaves xs c stopf = record { slave = holding xs (c + 1); printed = if stopf then some xs else none }

module _ (s : SlaveStatus) (xs : List ℕ) (c : ℕ) (fits : c + 1 < 2 ^ 32) where
  ev_with_byte :
      (b : ℕ) (rest : List ℕ)
      → s.rx_ne ≡ true
      → b < 256
      → length xs < 16
      → let r = i2c3_ev s (holding xs c) (b ∷ rest) in
        (r.outcome ≡ done (leaves (xs ++ (b ∷ [])) c s.stopf)) × (r.rest ≡ rest)
  unfolding i2c3_ev show_if increment
  ev_with_byte b rest e k h =
      let held : length (xs ++ (b ∷ [])) ≤ 16 = omega (arith, length-append xs (b ∷ [])) in
      let r = receive_lem xs c b rest h k in
      let d = show_data_lem (xs ++ (b ∷ [])) c rest held in ground (arith, r, d)

  ev_without_byte :
      (reads : List ℕ)
      → s.rx_ne ≡ false
      → length xs ≤ 16
      → let r = i2c3_ev s (holding xs c) reads in
        (r.outcome ≡ done (leaves xs c s.stopf)) × (r.rest ≡ reads)
  unfolding i2c3_ev show_if increment
  ev_without_byte reads e h = let d = show_data_lem xs c reads h in ground (arith, d)

-- What the slave leaves after some interrupts, and the data it has logged.
pub record Heard : Type 0 where
  pub slave : Receiver
  pub log : List (List ℕ)

abbrev add_log : Option (List ℕ) → Heard → Heard
add_log none h = h
add_log (some bytes) h = record h { log = bytes ∷ h.log }

-- The slave's interrupts, one after another.
unfoldable pub listen : List SlaveStatus → Receiver → M Field Heard
listen [] t = pure (record { slave = t; log = [] })
listen (s ∷ es) t = do
  shown ← i2c3_ev s t
  more ← listen es shown.slave
  pure (add_log shown.printed more)

-- How many of them bring a byte.
abbrev pub bytes_in : List SlaveStatus → ℕ
bytes_in [] = 0
bytes_in (s ∷ es) = if s.rx_ne then suc (bytes_in es) else bytes_in es

-- No STOP condition but with the last interrupt.
abbrev pub EndsWithStop : List SlaveStatus → Type 0
EndsWithStop [] = ⊥
EndsWithStop (s ∷ []) = s.stopf ≡ true
EndsWithStop (s ∷ s' ∷ es) = (s.stopf ≡ false) × EndsWithStop (s' ∷ es)

abbrev pub IsBytes : List ℕ → Type 0
IsBytes = All (λ b. b < 256)

-- From a slave that holds some bytes, a transfer logs once, at its end, these and all the bytes
-- received since, in order; other interrupts in between change nothing. Together they must fit the
-- buffer, and the counter must not overflow.
pub listen_logs :
    (es : List SlaveStatus) (xs bs : List ℕ) (c : ℕ)
    → EndsWithStop es
    → IsBytes bs
    → length bs ≡ bytes_in es
    → length xs + length bs ≤ 16
    → c + length es < 2 ^ 32
    → (listen es (holding xs c) bs).outcome
      ≡ done (record { slave = holding (xs ++ bs) (c + length es); log = (xs ++ bs) ∷ [] })
unfolding listen
listen_logs [] xs bs c stop bytes e h k = elim stop [ ]
listen_logs (s ∷ []) xs [] c stop bytes e h k =
    let one = ev_without_byte s xs c (omega arith) [] (ground arith) (omega arith) in
    rw (one.0, stop, append-nil) refl
listen_logs (s ∷ []) xs (b ∷ []) c stop bytes e h k =
    let one = ev_with_byte s xs c (omega arith) b [] (ground arith) bytes.0 (omega arith) in
    rw (one.0, stop) refl
listen_logs (s ∷ []) xs (b ∷ b' ∷ bs) c stop bytes e h k = absurd (ground arith)
listen_logs (s ∷ s' ∷ es) xs [] c stop bytes e h k =
    let one = ev_without_byte s xs c (omega arith) [] (ground arith) (omega arith) in
    let later = listen_logs (s' ∷ es) xs [] (c + 1) stop.1 bytes (ground arith) h (omega arith) in
    let at : c + 1 + length (s' ∷ es) ≡ c + length (s ∷ s' ∷ es) = omega arith in
    rw (one.0, one.1, stop.0, later, at) refl
listen_logs (s ∷ s' ∷ es) xs (b ∷ bs) c stop bytes e h k =
    let at : c + 1 + length (s' ∷ es) ≡ c + length (s ∷ s' ∷ es) = omega arith in
    elim (Bool-cases s.rx_ne) [
      | inl r ↦
          let one = ev_with_byte s xs c (omega arith) b bs r bytes.0 (omega arith) in
          let later =
            listen_logs (s' ∷ es) (xs ++ (b ∷ [])) bs (c + 1) stop.1 bytes.1 (ground arith)
              (omega (arith, length-append xs (b ∷ []))) (omega arith) in
          rw (one.0, one.1, stop.0, later, at, append_assoc xs (b ∷ []) bs) refl
      | inr r ↦
          let one = ev_without_byte s xs c (omega arith) (b ∷ bs) r (omega arith) in
          let later =
            listen_logs (s' ∷ es) xs (b ∷ bs) (c + 1) stop.1 bytes (ground arith) h (omega arith) in
          rw (one.0, one.1, stop.0, later, at) refl
    ]
