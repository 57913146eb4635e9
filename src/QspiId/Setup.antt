-- ===== src/QspiId/Setup.antt =====
-- What s19_quadspi/src/bin/s19c01_read_flash_id.rs and s19c02_quad_mode_read_id.rs do alike: the
-- clock, the pins, the timer of the pause, and the waits.
use rust_on_stm32_notebook.Common.{not, [], ◌∷◌}
use rust_on_stm32_notebook.Hardware.{Value, bits, M, write, poll, is_set, ◌>>◌}

pub data Field : Type 0 where
  hseon hserdy sw sws_is_hse gpioaen gpioben gpiocen : Field
  afrl_a1 moder_a1 afrl_b1 afrl_b6 moder_b1 moder_b6 afrh_c8 afrh_c9 afrh_c10 : Field
  moder_c8 moder_c9 moder_c10 stk_val reload stk_enable countflag : Field
  qspien qspirst fsize ckmode prescaler sshift qspi_en busy tcf ctcf dl : Field
  fmode imode admode adsize abmode absize dmode dcyc instruction address alternate dr : Field

unfoldable pub use_hse : M Field (Unit {0})
use_hse = do
  write ((hseon, Value.on) ∷ [])
  poll hserdy is_set
  write ((sw, Value.hse) ∷ [])
  poll sws_is_hse is_set

unfoldable pub setup_gpio : M Field (Unit {0})
setup_gpio = do
  write ((gpioaen, Value.enabled) ∷ (gpioben, Value.enabled) ∷ (gpiocen, Value.enabled) ∷ [])
  write ((afrl_a1, Value.af9) ∷ [])
  write ((moder_a1, Value.alternate) ∷ [])
  write ((afrl_b1, Value.af9) ∷ (afrl_b6, Value.af10) ∷ [])
  write ((moder_b1, Value.alternate) ∷ (moder_b6, Value.alternate) ∷ [])
  write ((afrh_c8, Value.af9) ∷ (afrh_c9, Value.af9) ∷ (afrh_c10, Value.af9) ∷ [])
  write (
      (moder_c8, Value.alternate) ∷ (moder_c9, Value.alternate) ∷ (moder_c10, Value.alternate) ∷ [])

unfoldable pub setup_systick : M Field (Unit {0})
setup_systick = do write ((stk_val, Value.reset_value) ∷ []); write ((reload, bits 74) ∷ [])

unfoldable pub reset_qspi : M Field (Unit {0})
reset_qspi = do
  write ((qspien, Value.disabled) ∷ [])
  write ((qspirst, Value.reset_on) ∷ [])
  write ((qspirst, Value.clear_bit) ∷ [])
  write ((qspien, Value.enabled) ∷ [])

-- `while qspi.sr.read().busy().bit_is_set() {}`
unfoldable pub wait_not_busy : M Field (Unit {0})
wait_not_busy = poll busy (λ v. not (is_set v))

-- the wait of 50 microseconds for the reset of the chip
unfoldable pub pause : M Field (Unit {0})
pause = do
  write ((stk_enable, Value.set_bit) ∷ [])
  poll countflag is_set
  write ((countflag, Value.clear_bit) ∷ (stk_enable, Value.clear_bit) ∷ [])
