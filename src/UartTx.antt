-- ===== src/UartTx.antt =====
-- s05_usart/src/bin/s05c01_tx.rs: a timer sends a numbered greeting every second. The static G_CNT is the
-- argument and the result of the handler; the number formatting of crate itoa is a parameter.
pub mod Setup
pub mod Lines
mod Tests
use rust_on_stm32_notebook.Common.{ℕ, ◌+◌, ◌^◌, Bool, if◌then◌else◌, List, [], ◌∷◌, ltb}
use rust_on_stm32_notebook.Hardware.{Value, bits, M, pure, fail, write, poll, is_set, ◌>>=◌, ◌>>◌}

pub data Field : Type 0 where
  hseon hserdy sw sws_is_hse gpioaen afrh9 pupdr9 moder9 usart1en : Field
  ue m stop div_mantissa div_fraction te tim2en dir psc arr urs uie uif cen nvic_tim2 : Field
  txe tc dr : Field

-- `b"\x1b[2K\rhello "`
abbrev pub greeting : List ℕ
greeting = 27 ∷ 91 ∷ 50 ∷ 75 ∷ 13 ∷ 104 ∷ 101 ∷ 108 ∷ 108 ∷ 111 ∷ 32 ∷ []

unfoldable pub send_letter : ℕ → M Field (Unit {0})
send_letter letter = do poll txe is_set; write ((dr, bits letter) ∷ [])

-- `for letter in letters`
unfoldable pub send_letters : List ℕ → M Field (Unit {0})
send_letters [] = pure tt
send_letters (letter ∷ letters) = do send_letter letter; send_letters letters

-- `cur_cnt + 1` on u32, in a debug build
unfoldable pub next_cnt : ℕ → M Field ℕ
next_cnt cur_cnt = if ltb (cur_cnt + 1) (2 ^ 32) then pure (cur_cnt + 1) else fail

module _ (itoa : ℕ → List ℕ) where
  unfoldable pub send_greeting : ℕ → M Field ℕ
  send_greeting cur_cnt = do
    write ((cen, Value.disabled) ∷ [])
    write ((uif, Value.clear) ∷ [])
    send_letters greeting
    send_letters (itoa cur_cnt)
    send_letter 13
    poll tc is_set
    cnt ← next_cnt cur_cnt
    write ((cen, Value.enabled) ∷ [])
    pure cnt

  -- The handler; `stored` is whether G_DP holds the peripherals.
  unfoldable pub tim2 : Bool → ℕ → M Field ℕ
  tim2 stored cur_cnt =
      if stored
      then send_greeting cur_cnt
      else (write ((nvic_tim2, Value.masked) ∷ []) >>= λ _. fail)
