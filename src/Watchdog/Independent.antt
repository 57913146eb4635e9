-- ===== src/Watchdog/Independent.antt =====
-- s16_watchdog/src/bin/s16c01_iwdg.rs.
use rust_on_stm32_notebook.Common.{ℕ, [], ◌∷◌}
use rust_on_stm32_notebook.Hardware.{Value, bits, M, write, poll, is_set, ◌>>◌}
use rust_on_stm32_notebook.Watchdog
use rust_on_stm32_notebook.Watchdog.{Field, next_cnt}

-- `main` up to its endless loop; the divider 16 and the keys are by their meaning
unfoldable pub main : M Field (Unit {0})
main = do
  write ((Watchdog.hseon, Value.on) ∷ [])
  poll Watchdog.hserdy is_set
  write ((Watchdog.sw, Value.hse) ∷ [])
  poll Watchdog.sws_is_hse is_set
  write ((Watchdog.lsion, Value.on) ∷ [])
  poll Watchdog.lsirdy is_set
  write ((Watchdog.stk_val, Value.reset_value) ∷ [])
  write ((Watchdog.reload, bits 999999) ∷ [])
  write ((Watchdog.tickint, Value.set_bit) ∷ [])
  write ((Watchdog.dbg_iwdg_stop, Value.set_bit) ∷ [])
  write ((Watchdog.key, Value.enabled) ∷ [])
  write ((Watchdog.pr, bits 16) ∷ [])
  write ((Watchdog.rl, bits 1999) ∷ [])
  write ((Watchdog.stored, Value.set_bit) ∷ [])
  write ((Watchdog.key, Value.on) ∷ [])
  write ((Watchdog.stk_enable, Value.set_bit) ∷ [])

-- The handler SysTick.
unfoldable pub sys_tick : ℕ → M Field ℕ
sys_tick cnt = do write ((Watchdog.key, Value.reset_on) ∷ []); next_cnt cnt
