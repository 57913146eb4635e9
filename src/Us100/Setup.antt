-- ===== src/Us100/Setup.antt =====
-- The set-up of the two US100 drivers of s06_tim/src/bin: Free is s06c04_us100_driver_01freerun.rs,
-- the definitions here are s06c04_us100_driver_02periodic.rs. `reset()` of a register writes its reset
-- value.
pub mod Free
use rust_on_stm32_notebook.Common.{[], ◌∷◌}
use rust_on_stm32_notebook.Hardware.{Value, bits, M, write, poll, ◌>>◌, is_set}
use rust_on_stm32_notebook.Us100
use rust_on_stm32_notebook.Us100.{Field}

-- The function of this name is the same in both programs.
unfoldable pub setup_hse : M Field (Unit {0})
setup_hse = do
  write ((Us100.hseon, Value.on) ∷ [])
  poll Us100.hserdy is_set
  write ((Us100.sw, Value.hse) ∷ [])
  poll Us100.sws_is_hse is_set

unfoldable pub setup_gpio : M Field (Unit {0})
setup_gpio = do
  write ((Us100.gpioaen, Value.enabled) ∷ [])
  write ((Us100.afrl5, Value.af1) ∷ [])
  write ((Us100.pupdr5, Value.pull_down) ∷ [])
  write ((Us100.moder5, Value.alternate) ∷ [])
  write ((Us100.gpioben, Value.enabled) ∷ [])
  write ((Us100.afrh10, Value.af1) ∷ [])
  write ((Us100.pupdr10, Value.pull_down) ∷ [])
  write ((Us100.moder10, Value.alternate) ∷ [])

-- the pulse on Trig at the head of each period
unfoldable pub setup_trigger : M Field (Unit {0})
setup_trigger = do
  write ((Us100.ccmr1, Value.reset_value) ∷ [])
  write ((Us100.ccs 1, Value.output) ∷ (Us100.oc1m, Value.pwm_mode1) ∷ [])
  write ((Us100.ccr 1, bits 10) ∷ [])
  write ((Us100.cce 1, Value.set_bit) ∷ [])

-- the captures of the two edges of Echo
unfoldable pub setup_captures : M Field (Unit {0})
setup_captures = do
  write ((Us100.ccmr2, Value.reset_value) ∷ [])
  write ((Us100.ccs 3, Value.ti3) ∷ (Us100.icf 3, bits 3) ∷ [])
  write (
      (Us100.ccnp 3, Value.clear_bit)
      ∷ (Us100.ccp 3, Value.clear_bit)
      ∷ (Us100.cce 3, Value.set_bit)
      ∷ [])
  write ((Us100.icpsc 3, bits 0) ∷ [])
  write ((Us100.ccs 4, Value.ti3) ∷ (Us100.icf 4, bits 3) ∷ [])
  write (
      (Us100.ccnp 4, Value.clear_bit)
      ∷ (Us100.ccp 4, Value.set_bit)
      ∷ (Us100.cce 4, Value.set_bit)
      ∷ [])
  write ((Us100.icpsc 4, bits 0) ∷ [])
  write ((Us100.ccie 4, Value.enabled) ∷ [])

unfoldable pub setup_tim2 : M Field (Unit {0})
setup_tim2 = do
  write ((Us100.tim2en, Value.enabled) ∷ [])
  write ((Us100.psc, bits 7) ∷ [])
  write ((Us100.arpe, Value.disabled) ∷ [])
  write ((Us100.arr, bits 199999) ∷ [])
  write ((Us100.cnt, bits 0) ∷ [])
  write ((Us100.arpe, Value.enabled) ∷ (Us100.dir, Value.up) ∷ [])
  write ((Us100.uie, Value.enabled) ∷ [])
  setup_trigger
  setup_captures
  write ((Us100.nvic_tim2, Value.unmasked) ∷ [])
  write ((Us100.cen, Value.enabled) ∷ [])

-- `main` up to its endless loop
unfoldable pub main : M Field (Unit {0})
main = do write ((Us100.dbg_tim2_stop, Value.set_bit) ∷ []); setup_hse; setup_gpio; setup_tim2
