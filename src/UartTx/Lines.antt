-- ===== src/UartTx/Lines.antt =====
-- What s05_usart/src/bin/s05c01_tx.rs sends.
use rust_on_stm32_notebook.Common.{
  ℕ, zero, suc, ◌+◌, ◌^◌, ◌<◌, ◌≤◌, ◌≡◌, refl, true, List, [], ◌∷◌, ◌++◌, ltb, length, arith,
}
use rust_on_stm32_notebook.Hardware.{Value, bits, M, done, pure, write, count_set, ◌>>=◌}
use rust_on_stm32_notebook.Hardware.Sending.{
  sent, Sends, pure-Sends, write-Sends, poll-Sends, >>=-Sends, same-Sends, then-Sends, quiet-Sends,
}
use rust_on_stm32_notebook.UartTx
use rust_on_stm32_notebook.UartTx.{
  Field, greeting, send_letter, send_letters, next_cnt, send_greeting, tim2,
}

-- A write of the data register hands its value to the transmitter.
abbrev pub written : List (Field × Value) → List ℕ
written ((UartTx.dr, bits v) ∷ []) = v ∷ []
written _ = []

abbrev SendsOut : {A : Type 0} → M Field A → A → ℕ → List ℕ → Type 0
SendsOut = Sends written

send_letter-Sends : (b : ℕ) → SendsOut (send_letter b) tt 1 (b ∷ [])
unfolding send_letter
send_letter-Sends b = >>=-Sends written _ (poll-Sends written UartTx.txe) (write-Sends written _)

send_letters-Sends : (bs : List ℕ) → SendsOut (send_letters bs) tt (length bs) bs
unfolding send_letters
send_letters-Sends [] = pure-Sends written tt
send_letters-Sends (b ∷ bs) =
    same-Sends written refl (omega arith) refl
      (>>=-Sends written (λ _. send_letters bs) (send_letter-Sends b) (send_letters-Sends bs))

next_cnt-Sends : (c : ℕ) → c + 1 < 2 ^ 32 → SendsOut (next_cnt c) (c + 1) 0 []
unfolding next_cnt
next_cnt-Sends c h = rw (below_top (c + 1) h) (pure-Sends written (c + 1))
  where
    below_top : (n : ℕ) → n < 2 ^ 32 → ltb n (2 ^ 32) ≡ true
    below_top n h = ground arith

module _ (itoa : ℕ → List ℕ) where
  -- The text for a number, and the flags that are waited for with it: TXE for each byte, and TC.
  abbrev pub line : ℕ → List ℕ
  line c = greeting ++ (itoa c ++ (13 ∷ []))

  abbrev pub line_flags : ℕ → ℕ
  line_flags c = length (itoa c) + 13

  tim2-Sends :
      (c : ℕ) → c + 1 < 2 ^ 32 → SendsOut (tim2 itoa true c) (c + 1) (line_flags c) (line c)
  unfolding tim2 send_greeting
  tim2-Sends c h =
      let counted =
        >>=-Sends written (λ (cnt : ℕ). write ((UartTx.cen, Value.enabled) ∷ []) >>= λ _. pure cnt)
          (next_cnt-Sends c h)
          (quiet-Sends written ((UartTx.cen, Value.enabled) ∷ []) refl
            (pure-Sends written (c + 1))) in
      let text = then-Sends written (send_letters-Sends greeting) (
        then-Sends written (send_letters-Sends (itoa c)) (
          then-Sends written (send_letter-Sends 13)
            (then-Sends written (poll-Sends written UartTx.tc) counted))) in
      same-Sends written refl (omega arith) refl (
        quiet-Sends written ((UartTx.cen, Value.disabled) ∷ []) refl
          (quiet-Sends written ((UartTx.uif, Value.clear) ∷ []) refl text))

  -- n interrupts of the timer from a number on
  unfoldable pub session : ℕ → ℕ → M Field ℕ
  session zero c = pure c
  session (suc n) c = tim2 itoa true c >>= session n

  abbrev pub lines : ℕ → ℕ → List ℕ
  lines zero c = []
  lines (suc n) c = line c ++ lines n (c + 1)

  abbrev pub lines_flags : ℕ → ℕ → ℕ
  lines_flags zero c = 0
  lines_flags (suc n) c = line_flags c + lines_flags n (c + 1)

  session-Sends :
      (n c : ℕ) → c + n < 2 ^ 32 → SendsOut (session n c) (c + n) (lines_flags n c) (lines n c)
  unfolding session
  session-Sends zero c h = same-Sends written (omega arith) refl refl (pure-Sends written c)
  session-Sends (suc n) c h = same-Sends written (omega arith) refl refl (
      >>=-Sends written (session n) (tim2-Sends c (omega arith))
        (session-Sends n (c + 1) (omega arith)))

  -- If the transmitter is ready often enough and the counter stays below 2 ^ 32, n interrupts of the timer
  -- from number c on end, leave the number c + n, and send the greeting with c, c + 1 and so on, n lines
  -- in order, nothing between them.
  pub session_numbers_lines :
      (n c : ℕ) (reads : List ℕ)
      → c + n < 2 ^ 32
      → lines_flags n c ≤ count_set reads
      → ((session n c reads).outcome ≡ done (c + n))
        × (sent written (session n c reads).trace ≡ lines n c)
  session_numbers_lines n c reads h k =
      let p = session-Sends n c h in (p.outcome reads k, p.bytes_sent reads k)
