-- ===== src/Us100/Setup/Free.antt =====
-- The set-up of s06_tim/src/bin/s06c04_us100_driver_01freerun.rs, where the rising edge of Echo resets
-- the counter.
use rust_on_stm32_notebook.Common.{[], ◌∷◌}
use rust_on_stm32_notebook.Hardware.{Value, bits, M, write, ◌>>◌}
use rust_on_stm32_notebook.Us100
use rust_on_stm32_notebook.Us100.{Field}
use rust_on_stm32_notebook.Us100.Setup.{setup_hse}

unfoldable pub setup_gpio : M Field (Unit {0})
setup_gpio = do
  write ((Us100.gpioaen, Value.enabled) ∷ [])
  write ((Us100.afrl6, Value.af2) ∷ [])
  write ((Us100.pupdr6, Value.pull_down) ∷ [])
  write ((Us100.moder6, Value.alternate) ∷ [])

-- CC1: the rising edge, which resets the counter
unfoldable pub setup_rising : M Field (Unit {0})
setup_rising = do
  write ((Us100.ccs 1, Value.ti1) ∷ (Us100.icf 1, bits 3) ∷ [])
  write ((Us100.ccnp 1, Value.clear_bit) ∷ (Us100.ccp 1, Value.clear_bit) ∷ [])
  write ((Us100.icpsc 1, bits 0) ∷ [])
  write
      ((Us100.ts, Value.ti1fp1) ∷ (Us100.ece, Value.disabled) ∷ (Us100.sms, Value.reset_mode) ∷ [])

-- CC2: the falling edge, which captures the counter
unfoldable pub setup_falling : M Field (Unit {0})
setup_falling = do
  write ((Us100.ccs 2, Value.ti1) ∷ (Us100.icf 2, bits 3) ∷ [])
  write (
      (Us100.ccnp 2, Value.clear_bit)
      ∷ (Us100.ccp 2, Value.set_bit)
      ∷ (Us100.cce 2, Value.set_bit)
      ∷ [])
  write ((Us100.icpsc 2, bits 0) ∷ [])
  write ((Us100.ccie 2, Value.enabled) ∷ [])
  write ((Us100.nvic_tim3, Value.unmasked) ∷ [])
  write ((Us100.cen, Value.enabled) ∷ [])

unfoldable pub setup_tim3 : M Field (Unit {0})
setup_tim3 = do
  write ((Us100.tim3en, Value.enabled) ∷ [])
  write ((Us100.psc, bits 11) ∷ [])
  write ((Us100.arpe, Value.disabled) ∷ [])
  write ((Us100.arr, bits 29999) ∷ [])
  write ((Us100.cnt, bits 0) ∷ [])
  write ((Us100.arpe, Value.enabled) ∷ (Us100.dir, Value.up) ∷ [])
  write ((Us100.uie, Value.enabled) ∷ [])
  write ((Us100.ccmr1, Value.reset_value) ∷ [])
  setup_rising
  setup_falling

-- `main` up to its endless loop
unfoldable pub main : M Field (Unit {0})
main = do write ((Us100.dbg_tim3_stop, Value.set_bit) ∷ []); setup_hse; setup_gpio; setup_tim3
