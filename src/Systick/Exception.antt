-- ===== src/Systick/Exception.antt =====
-- s10_systick/src/bin/s10c02_systick_exp.rs; the static G_CNT is the argument and the result of the handler.
use rust_on_stm32_notebook.Common.{ℕ, ◌+◌, ◌^◌, false, true, if◌then◌else◌, [], ◌∷◌, ltb}
use rust_on_stm32_notebook.Hardware.{Value, bits, bit, M, pure, fail, write, ◌>>◌}
use rust_on_stm32_notebook.Systick
use rust_on_stm32_notebook.Systick.{Field, setup_hse}

-- `main` up to its endless loop
unfoldable pub main : M Field (Unit {0})
main = do
  setup_hse
  write ((Systick.reload, bits 999999) ∷ [])
  write ((Systick.stk_val, Value.reset_value) ∷ [])
  write (
      (Systick.clksource, bit false)
      ∷ (Systick.tickint, bit true)
      ∷ (Systick.stk_enable, Value.set_bit)
      ∷ [])

-- The handler SysTick; `cnt += 1` on u32, in a debug build.
unfoldable pub sys_tick : ℕ → M Field ℕ
sys_tick cnt = if ltb (cnt + 1) (2 ^ 32) then pure (cnt + 1) else fail
