-- ===== src/Dac/Setup.antt =====
-- The set-up of s20_dac/src/bin/s20c01_2sin_wave.rs.
use rust_on_stm32_notebook.Common.{ℕ, [], ◌∷◌}
use rust_on_stm32_notebook.Hardware.{Value, bits, M, write, poll, ◌>>◌, is_set}
use rust_on_stm32_notebook.Dac
use rust_on_stm32_notebook.Dac.{Field, play}

unfoldable pub setup_rcc : M Field (Unit {0})
setup_rcc = do
  write ((Dac.hseon, Value.on) ∷ [])
  poll Dac.hserdy is_set
  write (
      (Dac.pllsrc, Value.hse)
      ∷ (Dac.pllm, bits 6)
      ∷ (Dac.plln, bits 100)
      ∷ (Dac.pllp, Value.div2)
      ∷ [])
  write ((Dac.pwren, Value.enabled) ∷ [])
  write ((Dac.vos, bits 0b01) ∷ [])
  write ((Dac.pllon, Value.on) ∷ [])
  poll Dac.vosrdy is_set
  poll Dac.pllrdy is_set
  write (
      (Dac.latency, Value.ws3)
      ∷ (Dac.dcen, Value.enabled)
      ∷ (Dac.icen, Value.enabled)
      ∷ (Dac.prften, Value.enabled)
      ∷ [])
  write ((Dac.ppre1, Value.div2) ∷ [])
  write ((Dac.sw, Value.pll) ∷ [])
  poll Dac.sws_is_pll is_set

unfoldable pub setup_gpio : M Field (Unit {0})
setup_gpio = do write ((Dac.gpioaen, Value.enabled) ∷ []); write ((Dac.moder4, Value.analog) ∷ [])

unfoldable pub setup_dac : M Field (Unit {0})
setup_dac = do write ((Dac.dacen, Value.enabled) ∷ []); write ((Dac.en1, Value.enabled) ∷ [])

-- `main` with the given number of rounds of its endless loop; its result is `index`
unfoldable pub main : ℕ → M Field ℕ
main rounds = do setup_rcc; setup_gpio; setup_dac; play rounds 0
