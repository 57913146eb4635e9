-- ===== src/I2c/Setup.antt =====
-- The set-up of s04_i2c/src/bin/s04c01_i2c1_to_i2c2.rs and utils/setup_pll.rs.
use rust_on_stm32_notebook.Common.{◌*◌, [], ◌∷◌}
use rust_on_stm32_notebook.Hardware.{Value, bits, M, write, poll, ◌>>◌, is_set}
use rust_on_stm32_notebook.I2c
use rust_on_stm32_notebook.I2c.{Field, i2c_slave_address}

-- utils/setup_pll.rs
unfoldable pub setup_hse : M Field (Unit {0})
setup_hse = do write ((I2c.hseon, Value.on) ∷ []); poll I2c.hserdy is_set

unfoldable pub adjust_vos : M Field (Unit {0})
adjust_vos = do write ((I2c.pwren, Value.enabled) ∷ []); write ((I2c.vos, bits 0b10) ∷ [])

unfoldable pub adjust_flash_wait : M Field (Unit {0})
adjust_flash_wait = do
  write ((I2c.dcrst, Value.reset_on) ∷ (I2c.icrst, Value.reset_on) ∷ [])
  write (
      (I2c.latency, Value.ws1)
      ∷ (I2c.dcen, Value.enabled)
      ∷ (I2c.icen, Value.enabled)
      ∷ (I2c.prften, Value.enabled)
      ∷ [])

unfoldable pub setup : M Field (Unit {0})
setup = do
  setup_hse
  write (
      (I2c.pllsrc, Value.hse)
      ∷ (I2c.pllm, bits 6)
      ∷ (I2c.plln, bits 128)
      ∷ (I2c.pllp, Value.div4)
      ∷ [])
  adjust_vos
  adjust_flash_wait
  write ((I2c.pllon, Value.on) ∷ [])
  poll I2c.vosrdy is_set
  poll I2c.pllrdy is_set
  write ((I2c.ppre1, Value.div2) ∷ [])
  write ((I2c.sw, Value.pll) ∷ [])
  poll I2c.sws_is_pll is_set

unfoldable pub setup_gpio_for_i2c1 : M Field (Unit {0})
setup_gpio_for_i2c1 = do
  write ((I2c.gpioben, Value.enabled) ∷ [])
  write ((I2c.afrl6, Value.af4) ∷ (I2c.afrl7, Value.af4) ∷ [])
  write ((I2c.ot6, Value.open_drain) ∷ (I2c.ot7, Value.open_drain) ∷ [])
  write ((I2c.pupdr6, Value.pull_up) ∷ (I2c.pupdr7, Value.pull_up) ∷ [])
  write ((I2c.ospeedr6, Value.high_speed) ∷ (I2c.ospeedr7, Value.high_speed) ∷ [])
  write ((I2c.moder6, Value.alternate) ∷ (I2c.moder7, Value.alternate) ∷ [])

unfoldable pub setup_gpio_for_i2c3 : M Field (Unit {0})
setup_gpio_for_i2c3 = do
  write ((I2c.gpioaen, Value.enabled) ∷ [])
  write ((I2c.afrh_a8, Value.af4) ∷ [])
  write ((I2c.ot_a8, Value.open_drain) ∷ [])
  write ((I2c.pupdr_a8, Value.pull_up) ∷ [])
  write ((I2c.moder_a8, Value.alternate) ∷ [])
  write ((I2c.gpiocen, Value.enabled) ∷ [])
  write ((I2c.afrh_c9, Value.af4) ∷ [])
  write ((I2c.ot_c9, Value.open_drain) ∷ [])
  write ((I2c.pupdr_c9, Value.pull_up) ∷ [])
  write ((I2c.moder_c9, Value.alternate) ∷ [])

unfoldable pub setup_i2c_master : M Field (Unit {0})
setup_i2c_master = do
  write ((I2c.i2cen 1, Value.enabled) ∷ [])
  write ((I2c.freq 1, bits 32) ∷ [])
  write ((I2c.ccr, bits 32) ∷ [])
  write ((I2c.trise, bits 33) ∷ [])
  write ((I2c.nvic_i2c1_evt, Value.unmasked) ∷ [])
  write ((I2c.nvic_i2c1_err, Value.unmasked) ∷ [])
  write (
      (I2c.itevten 1, Value.enabled)
      ∷ (I2c.itbufen 1, Value.enabled)
      ∷ (I2c.iterren 1, Value.enabled)
      ∷ [])
  write ((I2c.pe 1, Value.enabled) ∷ [])

unfoldable pub setup_i2c_slave : M Field (Unit {0})
setup_i2c_slave = do
  write ((I2c.i2cen 3, Value.enabled) ∷ [])
  write ((I2c.freq 3, bits 32) ∷ [])
  write ((I2c.oar1_addmode, Value.add7) ∷ (I2c.oar1_add, bits (i2c_slave_address * 2)) ∷ [])
  write ((I2c.nvic_i2c3_ev, Value.unmasked) ∷ [])
  write ((I2c.nvic_i2c3_er, Value.unmasked) ∷ [])
  write (
      (I2c.itevten 3, Value.enabled)
      ∷ (I2c.itbufen 3, Value.enabled)
      ∷ (I2c.iterren 3, Value.enabled)
      ∷ [])
  write ((I2c.pe 3, Value.enabled) ∷ [])
  write ((I2c.ack, Value.ack) ∷ [])

-- `main` up to its endless loop
unfoldable pub main : M Field (Unit {0})
main = do
  setup
  write ((I2c.priority_i2c3_er, bits 2) ∷ [])
  write ((I2c.priority_i2c3_ev, bits 4) ∷ [])
  write ((I2c.priority_i2c1_err, bits 8) ∷ [])
  write ((I2c.priority_i2c1_evt, bits 16) ∷ [])
  setup_gpio_for_i2c1
  setup_gpio_for_i2c3
  setup_i2c_master
  setup_i2c_slave
  write ((I2c.start 1, Value.start_condition) ∷ [])
