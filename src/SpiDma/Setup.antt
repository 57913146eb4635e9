-- ===== src/SpiDma/Setup.antt =====
-- The set-up of s08_dma/src/bin/s08c02_spi_slave_read_dma.rs.
use rust_on_stm32_notebook.Common.{ℕ, ◌%◌, ◌^◌, not, if◌then◌else◌, [], ◌∷◌}
use rust_on_stm32_notebook.Hardware.{Value, bits, M, pure, write, read, poll, ◌>>=◌, ◌>>◌, is_set}
use rust_on_stm32_notebook.SpiDma
use rust_on_stm32_notebook.SpiDma.{Field, list_len}

unfoldable pub disable_stream : M Field (Unit {0})
disable_stream = do
  write ((SpiDma.stream_en, Value.disabled) ∷ [])
  poll SpiDma.stream_en (λ v. not (is_set v))

-- `if cr.en() { disable; while cr.en() {} }`
unfoldable pub stop_stream : M Field (Unit {0})
stop_stream = do en ← read SpiDma.stream_en; if is_set en then disable_stream else pure tt

-- the writes of CR, FCR, PAR, M0AR and NDTR; `spi2_dr` is the address of SPI2_DR, `dst_list` that of
-- DST_LIST
unfoldable pub configure_stream : ℕ → ℕ → M Field (Unit {0})
configure_stream spi2_dr dst_list = do
  write (
      (SpiDma.dir, Value.peripheral_to_memory)
      ∷ (SpiDma.chsel, bits 0)
      ∷ (SpiDma.mburst, Value.incr8)
      ∷ (SpiDma.minc, Value.incremented)
      ∷ (SpiDma.msize, Value.bits8)
      ∷ (SpiDma.pburst, Value.single)
      ∷ (SpiDma.pinc, Value.fixed)
      ∷ (SpiDma.psize, Value.bits8)
      ∷ (SpiDma.tcie, Value.enabled)
      ∷ (SpiDma.teie, Value.enabled)
      ∷ [])
  write (
      (SpiDma.dmdis, Value.disabled) ∷ (SpiDma.feie, Value.enabled) ∷ (SpiDma.fth, Value.half) ∷ [])
  write ((SpiDma.pa, bits spi2_dr) ∷ [])
  write ((SpiDma.m0a, bits dst_list) ∷ [])
  write ((SpiDma.ndt, bits (list_len % 2 ^ 16)) ∷ [])

unfoldable pub setup_dma1 : ℕ → ℕ → M Field (Unit {0})
setup_dma1 spi2_dr dst_list = do
  write ((SpiDma.dma1rst, Value.set_bit) ∷ [])
  write ((SpiDma.dma1rst, Value.clear_bit) ∷ [])
  write ((SpiDma.dma1en, Value.enabled) ∷ [])
  stop_stream
  configure_stream spi2_dr dst_list
  write ((SpiDma.hifcr, bits 0xFFFFFFFF) ∷ [])
  write ((SpiDma.lifcr, bits 0xFFFFFFFF) ∷ [])
  write ((SpiDma.stream_en, Value.enabled) ∷ [])

unfoldable pub setup_spi2 : M Field (Unit {0})
setup_spi2 = do
  write ((SpiDma.gpioaen, Value.enabled) ∷ [])
  write (
      (SpiDma.afrh9, Value.af5)
      ∷ (SpiDma.afrh10, Value.af5)
      ∷ (SpiDma.afrh11, Value.af5)
      ∷ (SpiDma.afrh12, Value.af5)
      ∷ [])
  write (
      (SpiDma.moder9, Value.alternate)
      ∷ (SpiDma.moder10, Value.alternate)
      ∷ (SpiDma.moder11, Value.alternate)
      ∷ (SpiDma.moder12, Value.alternate)
      ∷ [])
  write ((SpiDma.spi2en, Value.enabled) ∷ [])
  write ((SpiDma.mstr 2, Value.as_slave) ∷ [])
  write ((SpiDma.rxdmaen, Value.enabled) ∷ [])
  write ((SpiDma.spe 2, Value.enabled) ∷ [])

unfoldable pub setup_spi1 : M Field (Unit {0})
setup_spi1 = do
  write ((SpiDma.gpioaen, Value.enabled) ∷ [])
  write (
      (SpiDma.afrl4, Value.af5)
      ∷ (SpiDma.afrl5, Value.af5)
      ∷ (SpiDma.afrl6, Value.af5)
      ∷ (SpiDma.afrl7, Value.af5)
      ∷ [])
  write (
      (SpiDma.moder4, Value.alternate)
      ∷ (SpiDma.moder5, Value.alternate)
      ∷ (SpiDma.moder6, Value.alternate)
      ∷ (SpiDma.moder7, Value.alternate)
      ∷ [])
  write ((SpiDma.spi1en, Value.enabled) ∷ [])
  write (
      (SpiDma.ssm, Value.enabled)
      ∷ (SpiDma.ssi, Value.slave_not_selected)
      ∷ (SpiDma.mstr 1, Value.as_master)
      ∷ [])
  write ((SpiDma.txeie, Value.not_mask) ∷ (SpiDma.ssoe, Value.enabled) ∷ [])
  write ((SpiDma.spe 1, Value.enabled) ∷ [])

-- `main` up to its endless loop
unfoldable pub main : ℕ → ℕ → M Field (Unit {0})
main spi2_dr dst_list = do
  setup_dma1 spi2_dr dst_list
  setup_spi2
  setup_spi1
  write ((SpiDma.nvic_dma1_stream3, Value.unmasked) ∷ [])
  write ((SpiDma.nvic_spi1, Value.unmasked) ∷ [])
