-- ===== src/MemCopy/Flash2mem.antt =====
-- s08_dma/src/bin/s08c01_mem2mem_02flash2mem.rs: the copy from the flash, with an interrupt handler.
use rust_on_stm32_notebook.Common.{ℕ, Bool, if◌then◌else◌, [], ◌∷◌}
use rust_on_stm32_notebook.Hardware.{
  Value, bits, M, pure, fail, write, read, when_true, ◌>>=◌, ◌>>◌,
}
use rust_on_stm32_notebook.MemCopy
use rust_on_stm32_notebook.MemCopy.{Field, stop_stream}

abbrev pub list_len : ℕ
list_len = 16

unfoldable pub configure : ℕ → ℕ → M Field (Unit {0})
configure src_list dst_list = do
  write (
      (MemCopy.dir, Value.memory_to_memory)
      ∷ (MemCopy.mburst, Value.incr16)
      ∷ (MemCopy.minc, Value.incremented)
      ∷ (MemCopy.msize, Value.bits8)
      ∷ (MemCopy.pburst, Value.incr16)
      ∷ (MemCopy.pinc, Value.incremented)
      ∷ (MemCopy.psize, Value.bits8)
      ∷ (MemCopy.htie, Value.enabled)
      ∷ (MemCopy.tcie, Value.enabled)
      ∷ (MemCopy.teie, Value.enabled)
      ∷ [])
  write ((MemCopy.feie, Value.enabled) ∷ (MemCopy.fth, Value.full) ∷ [])
  write ((MemCopy.m0a, bits dst_list) ∷ [])
  write ((MemCopy.pa, bits src_list) ∷ [])
  write ((MemCopy.ndt, bits list_len) ∷ [])

-- `main` up to its endless loop
unfoldable pub main : ℕ → ℕ → M Field (Unit {0})
main src_list dst_list = do
  write ((MemCopy.dma2en, Value.enabled) ∷ [])
  stop_stream
  configure src_list dst_list
  write ((MemCopy.hifcr, bits 0xFFFFFFFF) ∷ [])
  write ((MemCopy.lifcr, bits 0xFFFFFFFF) ∷ [])
  write ((MemCopy.stream_en, Value.enabled) ∷ [])
  write ((MemCopy.nvic_dma2_stream0, Value.unmasked) ∷ [])

-- the block of a complete transfer; `is_utf8` is whether DST_LIST is then valid UTF-8
unfoldable pub complete : Bool → M Field (Unit {0})
complete is_utf8 = do
  write ((MemCopy.ctcif0, Value.clear) ∷ [])
  if is_utf8 then pure tt else fail
  write ((MemCopy.nvic_dma2_stream0, Value.masked) ∷ [])
  write ((MemCopy.dma2en, Value.disabled) ∷ [])

module _ (feif0 teif0 htif0 tcif0 : ℕ → Bool) where
  unfoldable pub handle : Bool → M Field (Unit {0})
  handle is_utf8 = do
    v ← read MemCopy.lisr
    when_true (feif0 v) (do write ((MemCopy.cfeif0, Value.clear) ∷ []); fail)
    when_true (teif0 v) (do write ((MemCopy.cteif0, Value.clear) ∷ []); fail)
    when_true (htif0 v) (write ((MemCopy.chtif0, Value.clear) ∷ []))
    when_true (tcif0 v) (complete is_utf8)

  -- The handler; `stored` is whether G_DP holds the peripherals.
  unfoldable pub dma2_stream0 : Bool → Bool → M Field (Unit {0})
  dma2_stream0 stored is_utf8 =
      if stored then handle is_utf8 else write ((MemCopy.nvic_dma2_stream0, Value.masked) ∷ [])
