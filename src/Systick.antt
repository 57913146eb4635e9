-- ===== src/Systick.antt =====
-- s10_systick/src/bin/s10c01_systick_basic_setup.rs and, in Exception, s10c02_systick_exp.rs: counting seconds
-- by polling and by an exception. The numbers that are logged are the result.
pub mod Exception
pub mod Counting
mod Tests
use rust_on_stm32_notebook.Common.{ℕ, zero, suc, ◌+◌, ◌^◌, false, if◌then◌else◌, List, [], ◌∷◌, ltb}
use rust_on_stm32_notebook.Hardware.{
  Value, bits, bit, M, pure, fail, write, poll, is_set, ◌>>=◌, ◌>>◌,
}

pub data Field : Type 0 where
  hseon hserdy sw sws_is_hse reload stk_val clksource stk_enable tickint countflag : Field

unfoldable pub setup_hse : M Field (Unit {0})
setup_hse = do
  write ((hseon, Value.on) ∷ [])
  poll hserdy is_set
  write ((sw, Value.hse) ∷ [])
  poll sws_is_hse is_set

-- `cnt += 1` on the i32 that the literal 0 is, in a debug build
unfoldable pub next_cnt : ℕ → M Field ℕ
next_cnt cnt = if ltb (cnt + 1) (2 ^ 31) then pure (cnt + 1) else fail

-- the given number of rounds of the endless loop
unfoldable pub count_rounds : ℕ → ℕ → M Field (List ℕ)
count_rounds zero cnt = pure []
count_rounds (suc rounds) cnt = do
  poll countflag is_set
  write ((countflag, Value.clear_bit) ∷ [])
  next ← next_cnt cnt
  more ← count_rounds rounds next
  pure (next ∷ more)

unfoldable pub main : ℕ → M Field (List ℕ)
main rounds = do
  setup_hse
  write ((reload, bits 1499999) ∷ [])
  write ((stk_val, Value.reset_value) ∷ [])
  write ((clksource, bit false) ∷ (stk_enable, Value.set_bit) ∷ [])
  count_rounds rounds 0
