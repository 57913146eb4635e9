-- ===== src/Encoder.antt =====
-- s06_tim/src/bin/s06c05_encoder_2int.rs: a rotary encoder on TIM2, whose counter overflows at each
-- detent; the handler counts the overflows in the static G_NUM, its argument and result. Polling is
-- s06c05_encoder_1loop.rs, where the counter itself is shown.
pub mod Polling
pub mod Setup
pub mod Net
mod Tests
use rust_on_stm32_notebook.Common.{
  ℕ, zero, suc, ◌+◌, Bool, true, false, if◌then◌else◌, [], ◌∷◌, ltb,
}
use rust_on_stm32_notebook.Hardware.{Value, M, pure, fail, write, read, is_set, ◌>>=◌, ◌>>◌}

pub data Field : Type 0 where
  hseon hserdy sw sws_is_hse gpioaen pupdr0 pupdr1 afrl0 afrl1 moder0 moder1 tim2en : Field
  cc1s ic1f cc2s ic2f cc1p cc1np cc2p cc2np sms arr cnt uie uif cen dir nvic_tim2 : Field

-- The integers, over the numbers of the source: `negsuc n` is -1 - n.
pub data ℤ : Type 0 where
  pos : ℕ → ℤ
  negsuc : ℕ → ℤ

-- `num + 1` and `num - 1` on i16, in a debug build
unfoldable pub add_one : ℤ → M Field ℤ
add_one (pos n) = if ltb n 32767 then pure (pos (n + 1)) else fail
add_one (negsuc zero) = pure (pos 0)
add_one (negsuc (suc n)) = pure (negsuc n)

unfoldable pub sub_one : ℤ → M Field ℤ
sub_one (pos zero) = pure (negsuc 0)
sub_one (pos (suc n)) = pure (pos n)
sub_one (negsuc n) = if ltb n 32767 then pure (negsuc (n + 1)) else fail

-- The handler; its log line is the new number.
unfoldable pub tim2 : ℤ → M Field ℤ
tim2 num = do
  write ((uif, Value.clear_bit) ∷ [])
  direction ← read dir
  if is_set direction then sub_one num else add_one num
