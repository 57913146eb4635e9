-- ===== src/Watchdog.antt =====
-- s16_watchdog/src/bin/s16c02_wwdg.rs and, in Independent, s16c01_iwdg.rs: a watchdog that SysTick feeds. The
-- static G_CNT is the argument and the result of the handler; log lines are left out.
pub mod Independent
pub mod Dog
pub mod Window
pub mod Timeout
mod Tests
use rust_on_stm32_notebook.Common.{ℕ, ◌+◌, ◌-◌, ◌*◌, ◌/◌, ◌^◌, if◌then◌else◌, [], ◌∷◌, ltb}
use rust_on_stm32_notebook.Hardware.{Value, bits, M, pure, fail, write, ◌>>=◌, ◌>>◌}

pub data Field : Type 0 where
  dbg_wwdg_stop wwdgen wdgtb w t wdga : Field
  hseon hserdy sw sws_is_hse lsion lsirdy dbg_iwdg_stop key pr rl : Field
  stk_val reload tickint stk_enable stored : Field

abbrev pub wwdg_reload_value : ℕ
wwdg_reload_value = 0x70

abbrev pub wwdg_upper_bound : ℕ
wwdg_upper_bound = 0x50

abbrev pub wwdg_prescale : ℕ
wwdg_prescale = 3

abbrev pub systick_feed : ℕ
systick_feed = (wwdg_reload_value - 0x48 + 1) * 2 ^ wwdg_prescale * 0x1000 / 8

-- `main` up to its endless loop
unfoldable pub main : M Field (Unit {0})
main = do
  write ((dbg_wwdg_stop, Value.set_bit) ∷ [])
  write ((wwdgen, Value.enabled) ∷ [])
  write ((wdgtb, bits wwdg_prescale) ∷ (w, bits wwdg_upper_bound) ∷ [])
  write ((t, bits wwdg_reload_value) ∷ [])
  write ((stk_val, Value.reset_value) ∷ [])
  write ((reload, bits systick_feed) ∷ [])
  write ((tickint, Value.set_bit) ∷ [])
  write ((stored, Value.set_bit) ∷ [])
  write ((wdga, Value.enabled) ∷ [])
  write ((stk_enable, Value.set_bit) ∷ [])

-- `cnt + 1` on u32, in a debug build
unfoldable pub next_cnt : ℕ → M Field ℕ
next_cnt cnt = if ltb (cnt + 1) (2 ^ 32) then pure (cnt + 1) else fail

-- The handler SysTick.
unfoldable pub sys_tick : ℕ → M Field ℕ
sys_tick cnt = do write ((t, bits wwdg_reload_value) ∷ []); next_cnt cnt
