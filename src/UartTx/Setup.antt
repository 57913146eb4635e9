-- ===== src/UartTx/Setup.antt =====
-- The set-up of s05_usart/src/bin/s05c01_tx.rs.
use rust_on_stm32_notebook.Common.{[], ◌∷◌}
use rust_on_stm32_notebook.Hardware.{Value, bits, M, write, poll, is_set, ◌>>◌}
use rust_on_stm32_notebook.UartTx
use rust_on_stm32_notebook.UartTx.{Field}

unfoldable pub switch_to_hse : M Field (Unit {0})
switch_to_hse = do
  write ((UartTx.hseon, Value.on) ∷ [])
  poll UartTx.hserdy is_set
  write ((UartTx.sw, Value.hse) ∷ [])
  poll UartTx.sws_is_hse is_set

unfoldable pub set_gpio_in_alternate_mode : M Field (Unit {0})
set_gpio_in_alternate_mode = do
  write ((UartTx.gpioaen, Value.enabled) ∷ [])
  write ((UartTx.afrh9, Value.af7) ∷ [])
  write ((UartTx.pupdr9, Value.pull_up) ∷ [])
  write ((UartTx.moder9, Value.alternate) ∷ [])

unfoldable pub set_usart1_into_tx_mode : M Field (Unit {0})
set_usart1_into_tx_mode = do
  write ((UartTx.usart1en, Value.enabled) ∷ [])
  write ((UartTx.ue, Value.enabled) ∷ [])
  write ((UartTx.m, Value.m8) ∷ [])
  write ((UartTx.stop, Value.stop1) ∷ [])
  write ((UartTx.div_mantissa, bits 13) ∷ (UartTx.div_fraction, bits 0) ∷ [])
  write ((UartTx.te, Value.enabled) ∷ [])

unfoldable pub set_tim2_1sec_trigger : M Field (Unit {0})
set_tim2_1sec_trigger = do
  write ((UartTx.tim2en, Value.enabled) ∷ [])
  write ((UartTx.dir, Value.down) ∷ [])
  write ((UartTx.psc, bits 11999) ∷ [])
  write ((UartTx.arr, bits 999) ∷ [])
  write ((UartTx.urs, Value.counter_only) ∷ [])
  write ((UartTx.uie, Value.enabled) ∷ [])
  write ((UartTx.uif, Value.clear) ∷ [])
  write ((UartTx.nvic_tim2, Value.unmasked) ∷ [])

-- `main` up to its endless loop
unfoldable pub main : M Field (Unit {0})
main = do
  switch_to_hse
  set_gpio_in_alternate_mode
  set_usart1_into_tx_mode
  set_tim2_1sec_trigger
  write ((UartTx.cen, Value.enabled) ∷ [])
