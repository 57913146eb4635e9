-- ===== src/EchoTerm/Setup.antt =====
-- The set-up of the clock, the pins and USART1 in s05_usart/src/bin/s05c02_echo_term.rs.
use rust_on_stm32_notebook.Common.{[], ◌∷◌}
use rust_on_stm32_notebook.Hardware.{Value, bits, M, write, poll, ◌>>◌, is_set}
use rust_on_stm32_notebook.EchoTerm.{Field, prepare_echo_term}
use rust_on_stm32_notebook.EchoTerm

unfoldable pub setup_hse : M Field (Unit {0})
setup_hse = do
  write ((EchoTerm.hseon, Value.on) ∷ [])
  poll EchoTerm.hserdy is_set
  write ((EchoTerm.sw, Value.hse) ∷ [])
  poll EchoTerm.sws_is_hse is_set

unfoldable pub setup_gpio_pins : M Field (Unit {0})
setup_gpio_pins = do
  write ((EchoTerm.gpioaen, Value.enabled) ∷ [])
  write ((EchoTerm.afrh9, Value.af7) ∷ (EchoTerm.afrh10, Value.af7) ∷ [])
  write ((EchoTerm.pupdr9, Value.pull_up) ∷ [])
  write ((EchoTerm.moder9, Value.alternate) ∷ (EchoTerm.moder10, Value.alternate) ∷ [])

-- The last line of the first block unmasks the interrupt in the NVIC.
unfoldable pub setup_uart1 : M Field (Unit {0})
setup_uart1 = do
  write ((EchoTerm.usart1en, Value.enabled) ∷ [])
  write (
      (EchoTerm.ue, Value.enabled)
      ∷ (EchoTerm.m, Value.m9)
      ∷ (EchoTerm.ps, Value.even)
      ∷ (EchoTerm.pce, Value.enabled)
      ∷ [])
  write ((EchoTerm.stop, Value.stop1) ∷ [])
  write ((EchoTerm.div_mantissa, bits 4) ∷ (EchoTerm.div_fraction, bits 5) ∷ [])
  write ((EchoTerm.nvic_usart1, Value.unmasked) ∷ [])
  write (
      (EchoTerm.rxneie, Value.enabled)
      ∷ (EchoTerm.re, Value.enabled)
      ∷ (EchoTerm.te, Value.enabled)
      ∷ [])

-- `main` up to its endless loop
unfoldable pub main : M Field (Unit {0})
main = do setup_hse; setup_gpio_pins; setup_uart1; prepare_echo_term
