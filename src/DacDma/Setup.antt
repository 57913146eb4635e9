-- ===== src/DacDma/Setup.antt =====
-- The set-up of s20_dac/src/bin/s20c01_3with_dma.rs.
use rust_on_stm32_notebook.Common.{ℕ, not, ◌%◌, ◌^◌, if◌then◌else◌, [], ◌∷◌, length}
use rust_on_stm32_notebook.Hardware.{Value, bits, M, pure, write, read, poll, is_set, ◌>>=◌, ◌>>◌}
use rust_on_stm32_notebook.Dac.{cos_wave_100}
use rust_on_stm32_notebook.DacDma
use rust_on_stm32_notebook.DacDma.{Field}

unfoldable pub setup_rcc : M Field (Unit {0})
setup_rcc = do
  write ((DacDma.hseon, Value.on) ∷ [])
  poll DacDma.hserdy is_set
  write (
      (DacDma.pllsrc, Value.hse)
      ∷ (DacDma.pllm, bits 6)
      ∷ (DacDma.plln, bits 100)
      ∷ (DacDma.pllp, Value.div2)
      ∷ [])
  write ((DacDma.pwren, Value.enabled) ∷ [])
  write ((DacDma.vos, bits 0b01) ∷ [])
  write ((DacDma.pllon, Value.on) ∷ [])
  poll DacDma.vosrdy is_set
  poll DacDma.pllrdy is_set
  write (
      (DacDma.latency, Value.ws3)
      ∷ (DacDma.dcen, Value.enabled)
      ∷ (DacDma.icen, Value.enabled)
      ∷ (DacDma.prften, Value.enabled)
      ∷ [])
  write ((DacDma.ppre1, Value.div2) ∷ [])
  write ((DacDma.sw, Value.pll) ∷ [])
  poll DacDma.sws_is_pll is_set

unfoldable pub setup_gpio : M Field (Unit {0})
setup_gpio = do
  write ((DacDma.gpioaen, Value.enabled) ∷ [])
  write ((DacDma.moder4, Value.analog) ∷ [])

unfoldable pub disable_stream : M Field (Unit {0})
disable_stream = do
  write ((DacDma.stream_en, Value.disabled) ∷ [])
  poll DacDma.stream_en (λ v. not (is_set v))

-- `if cr.en() { disable; while cr.en() {} }`
unfoldable pub stop_stream : M Field (Unit {0})
stop_stream = do en ← read DacDma.stream_en; if is_set en then disable_stream else pure tt

-- the writes of CR, FCR, M0AR, PAR and NDTR
unfoldable pub configure_stream : ℕ → ℕ → M Field (Unit {0})
configure_stream cos_wave dhr12r1 = do
  write (
      (DacDma.chsel, bits 7)
      ∷ (DacDma.dir, Value.memory_to_peripheral)
      ∷ (DacDma.circ, Value.enabled)
      ∷ (DacDma.msize, Value.bits16)
      ∷ (DacDma.mburst, Value.incr8)
      ∷ (DacDma.minc, Value.incremented)
      ∷ (DacDma.psize, Value.bits16)
      ∷ (DacDma.pinc, Value.fixed)
      ∷ [])
  write ((DacDma.dmdis, Value.disabled) ∷ (DacDma.fth, Value.full) ∷ [])
  write ((DacDma.m0ar, bits cos_wave) ∷ [])
  write ((DacDma.pa, bits dhr12r1) ∷ [])
  write ((DacDma.ndt, bits (length cos_wave_100 % 2 ^ 16)) ∷ [])

unfoldable pub setup_dma : ℕ → ℕ → M Field (Unit {0})
setup_dma cos_wave dhr12r1 = do
  write ((DacDma.dma1en, Value.enabled) ∷ [])
  stop_stream
  configure_stream cos_wave dhr12r1
  write ((DacDma.cteif5, Value.clear) ∷ (DacDma.cfeif5, Value.clear) ∷ [])
  write ((DacDma.teie, Value.enabled) ∷ [])
  write ((DacDma.feie, Value.enabled) ∷ [])
  write ((DacDma.nvic_dma1_stream5, Value.unmasked) ∷ [])

unfoldable pub setup_dac : M Field (Unit {0})
setup_dac = do
  write ((DacDma.dacen, Value.enabled) ∷ [])
  write (
      (DacDma.tsel1, Value.tim2_trgo)
      ∷ (DacDma.ten1, Value.enabled)
      ∷ (DacDma.dmaen1, Value.enabled)
      ∷ (DacDma.dmaudrie1, Value.enabled)
      ∷ [])
  write ((DacDma.nvic_dac, Value.unmasked) ∷ [])

unfoldable pub setup_tim : M Field (Unit {0})
setup_tim = do
  write ((DacDma.tim2en, Value.enabled) ∷ [])
  write ((DacDma.mms, Value.on_update) ∷ [])
  write ((DacDma.arr, bits 9) ∷ [])

-- `main` up to its endless loop
unfoldable pub main : ℕ → ℕ → M Field (Unit {0})
main cos_wave dhr12r1 = do
  setup_rcc
  setup_gpio
  setup_dma cos_wave dhr12r1
  setup_dac
  setup_tim
  write ((DacDma.stored, Value.set_bit) ∷ [])
  write ((DacDma.stream_en, Value.enabled) ∷ [])
  write ((DacDma.en1, Value.enabled) ∷ [])
  write ((DacDma.cen, Value.enabled) ∷ [])
