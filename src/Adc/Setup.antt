-- ===== src/Adc/Setup.antt =====
-- The set-up of s09_adc/src/bin/s09c01_adc_basic_setup.rs.
use rust_on_stm32_notebook.Common.{[], ◌∷◌}
use rust_on_stm32_notebook.Hardware.{Value, bits, M, write, poll, is_set, ◌>>◌}
use rust_on_stm32_notebook.Adc
use rust_on_stm32_notebook.Adc.{Field}

unfoldable pub setup_hse : M Field (Unit {0})
setup_hse = do write ((Adc.hseon, Value.on) ∷ []); poll Adc.hserdy is_set

unfoldable pub lower_voc : M Field (Unit {0})
lower_voc = do write ((Adc.pwren, Value.enabled) ∷ []); write ((Adc.vos, bits 0b01) ∷ [])

unfoldable pub adjust_flash_wait : M Field (Unit {0})
adjust_flash_wait = do
  write ((Adc.dcrst, Value.reset_on) ∷ (Adc.icrst, Value.reset_on) ∷ [])
  write (
      (Adc.latency, Value.ws1)
      ∷ (Adc.dcen, Value.enabled)
      ∷ (Adc.icen, Value.enabled)
      ∷ (Adc.prften, Value.enabled)
      ∷ [])

unfoldable pub setup_pll : M Field (Unit {0})
setup_pll = do
  setup_hse
  write (
      (Adc.pllsrc, Value.hse)
      ∷ (Adc.pllm, bits 6)
      ∷ (Adc.plln, bits 120)
      ∷ (Adc.pllp, Value.div4)
      ∷ [])
  lower_voc
  adjust_flash_wait
  write ((Adc.ppre1, Value.div2) ∷ [])
  write ((Adc.pllon, Value.on) ∷ [])
  poll Adc.vosrdy is_set
  poll Adc.pllrdy is_set
  write ((Adc.sw, Value.pll) ∷ [])
  poll Adc.sws_is_pll is_set

unfoldable pub setup_gpio : M Field (Unit {0})
setup_gpio = do write ((Adc.gpioaen, Value.enabled) ∷ []); write ((Adc.moder6, Value.analog) ∷ [])

unfoldable pub setup_adc : M Field (Unit {0})
setup_adc = do
  write ((Adc.adc1en, Value.enabled) ∷ [])
  write ((Adc.adcpre, Value.div2) ∷ [])
  write ((Adc.sq1, bits 6) ∷ [])
  write ((Adc.l, bits 0) ∷ [])
  write ((Adc.smp6, Value.cycles480) ∷ [])
  write ((Adc.extsel, Value.tim2_cc2) ∷ (Adc.exten, Value.rising_edge) ∷ [])
  write ((Adc.eocie, Value.enabled) ∷ [])
  write ((Adc.nvic_adc, Value.unmasked) ∷ [])
  write ((Adc.adon, Value.enabled) ∷ [])

unfoldable pub setup_tim2 : M Field (Unit {0})
setup_tim2 = do
  write ((Adc.tim2en, Value.enabled) ∷ [])
  write ((Adc.psc, bits 5999) ∷ [])
  write ((Adc.arr, bits 999) ∷ [])
  write ((Adc.arpe, Value.enabled) ∷ [])
  write ((Adc.cc2s, Value.output) ∷ (Adc.oc2pe, Value.enabled) ∷ (Adc.oc2m, Value.pwm_mode1) ∷ [])
  write ((Adc.ccr2, bits 1) ∷ [])
  write ((Adc.cc2np, Value.clear_bit) ∷ (Adc.cc2p, Value.set_bit) ∷ (Adc.cc2e, Value.set_bit) ∷ [])
  write ((Adc.cen, Value.enabled) ∷ [])

-- `main` up to its endless loop
unfoldable pub main : M Field (Unit {0})
main = do setup_pll; setup_gpio; setup_adc; setup_tim2
