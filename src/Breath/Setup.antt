-- ===== src/Breath/Setup.antt =====
-- The set-up of s06_tim/src/bin/s06c03_led_breath.rs: the clock, the pin, the PWM timer and the timer
-- that shifts it.
use rust_on_stm32_notebook.Common.{[], ◌∷◌}
use rust_on_stm32_notebook.Hardware.{Value, bits, M, write, poll, ◌>>◌, is_set}
use rust_on_stm32_notebook.Breath
use rust_on_stm32_notebook.Breath.{Field, max_arr_value}

unfoldable pub config_hse : M Field (Unit {0})
config_hse = do
  write ((Breath.hseon, Value.on) ∷ [])
  poll Breath.hserdy is_set
  write ((Breath.sw, Value.hse) ∷ [])
  poll Breath.sws_is_hse is_set

unfoldable pub gpio_pa5_af1 : M Field (Unit {0})
gpio_pa5_af1 = do
  write ((Breath.gpioaen, Value.enabled) ∷ [])
  write ((Breath.afrl5, Value.af1) ∷ [])
  write ((Breath.moder5, Value.alternate) ∷ [])

-- `ccmr1_output.reset()` is a write of the register's reset value.
unfoldable pub tim2_pwm_init : M Field (Unit {0})
tim2_pwm_init = do
  write ((Breath.tim2en, Value.enabled) ∷ [])
  write ((Breath.tim2_arr, bits max_arr_value) ∷ [])
  write ((Breath.tim2_arpe, Value.enabled) ∷ (Breath.tim2_dir, Value.down) ∷ [])
  write ((Breath.tim2_psc, bits 9) ∷ [])
  write ((Breath.tim2_ccmr1, Value.reset_value) ∷ [])
  write ((Breath.cc1s, Value.output) ∷ (Breath.oc1m, Value.pwm_mode2) ∷ [])
  write ((Breath.ccr1, bits max_arr_value) ∷ [])
  write ((Breath.oc1pe, Value.enabled) ∷ [])
  write ((Breath.cc1e, Value.set_bit) ∷ [])
  write ((Breath.tim2_cen, Value.enabled) ∷ [])

unfoldable pub tim3_timer : M Field (Unit {0})
tim3_timer = do
  write ((Breath.tim3en, Value.enabled) ∷ [])
  write ((Breath.tim3_psc, bits 9999) ∷ [])
  write ((Breath.tim3_arr, bits 15) ∷ [])
  write ((Breath.tim3_arpe, Value.enabled) ∷ (Breath.urs, Value.counter_only) ∷ [])
  write ((Breath.nvic_tim3, Value.unmasked) ∷ [])
  write ((Breath.tim3_uie, Value.enabled) ∷ [])
  write ((Breath.tim3_cen, Value.enabled) ∷ [])

-- `main` up to its endless loop
unfoldable pub main : M Field (Unit {0})
main = do
  config_hse
  write ((Breath.dbg_tim2_stop, Value.set_bit) ∷ (Breath.dbg_tim3_stop, Value.set_bit) ∷ [])
  gpio_pa5_af1
  tim2_pwm_init
  tim3_timer
