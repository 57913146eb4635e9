-- ===== src/MemCopy.antt =====
-- s08_dma/src/bin/s08c01_mem2mem_01polling.rs and, in Flash2mem, s08c01_mem2mem_02flash2mem.rs: a copy by a
-- DMA stream. The addresses of the two lists are parameters, and so is how the register access crate
-- reads a flag out of a value of LISR. Log lines are left out.
pub mod Flash2mem
pub mod Guard
pub mod Watching
mod Tests
use rust_on_stm32_notebook.Common.{ℕ, Bool, not, if◌then◌else◌, List, [], ◌∷◌, ◌++◌}
use rust_on_stm32_notebook.Hardware.{
  Value, bits, Effect, modify, sample, M, done, panic, waiting, pure, write, read, poll, is_set,
  ◌>>=◌, ◌>>◌,
}

pub data Field : Type 0 where
  dma2en stream_en chsel pl dir circ psize pinc minc msize m0a pa ndt fth pburst mburst : Field
  feie htie tcie teie hifcr lifcr lisr cfeif0 cteif0 chtif0 ctcif0 nvic_dma2_stream0 : Field

unfoldable pub disable_stream : M Field (Unit {0})
disable_stream = do write ((stream_en, Value.disabled) ∷ []); poll stream_en (λ v. not (is_set v))

-- `if cr.en() { disable; while cr.en() {} }`
unfoldable pub stop_stream : M Field (Unit {0})
stop_stream = do en ← read stream_en; if is_set en then disable_stream else pure tt

unfoldable pub configure : ℕ → ℕ → M Field (Unit {0})
configure src_list dst_list = do
  write ((chsel, bits 0) ∷ (pl, Value.level_medium) ∷ [])
  write ((dir, Value.memory_to_memory) ∷ (circ, Value.circular_off) ∷ [])
  write (
      (psize, Value.bits8)
      ∷ (pinc, Value.incremented)
      ∷ (minc, Value.incremented)
      ∷ (msize, Value.bits8)
      ∷ [])
  write ((m0a, bits dst_list) ∷ [])
  write ((pa, bits src_list) ∷ [])
  write ((ndt, bits 8) ∷ [])
  write ((fth, Value.half) ∷ [])
  write ((pburst, Value.incr8) ∷ (mburst, Value.incr8) ∷ [])

-- `main` up to its loop
unfoldable pub start : ℕ → ℕ → M Field (Unit {0})
start src_list dst_list = do
  write ((dma2en, Value.enabled) ∷ [])
  stop_stream
  configure src_list dst_list
  write ((hifcr, bits 0xFFFFFFFF) ∷ [])
  write ((lifcr, bits 0xFFFFFFFF) ∷ [])
  write ((stream_en, Value.enabled) ∷ [])

module _ (feif0 htif0 tcif0 : ℕ → Bool) where
  -- the clearing of the flag of the half transfer
  abbrev pub note_half : ℕ → List (Effect Field)
  note_half v = if htif0 v then modify ((chtif0, Value.clear) ∷ []) ∷ [] else []

  -- The loop: a round reads LISR once; it ends in the endless loop after a complete transfer.
  unfoldable pub watch : M Field (Unit {0})
  watch [] = record { outcome = waiting; trace = []; rest = [] }
  watch (v ∷ reads) =
      let more = watch reads in
      if feif0 v
      then record {
        outcome = panic;
        trace = sample lisr v ∷ modify ((cfeif0, Value.clear) ∷ []) ∷ [];
        rest = reads;
      }
      else if tcif0 v
      then record {
        outcome = done tt;
        trace = sample lisr v ∷ (note_half v ++ (modify ((ctcif0, Value.clear) ∷ []) ∷ []));
        rest = reads;
      }
      else record {
        outcome = more.outcome;
        trace = sample lisr v ∷ (note_half v ++ more.trace);
        rest = more.rest;
      }

  unfoldable pub main : ℕ → ℕ → M Field (Unit {0})
  main src_list dst_list = do start src_list dst_list; watch
