-- ===== src/MemCopy/Watching.antt =====
-- The polling loop of s08_dma/src/bin/s08c01_mem2mem_01polling.rs beside the interrupt handler of
-- s08c01_mem2mem_02flash2mem.rs.
use rust_on_stm32_notebook.Common.{ℕ, ◌≡◌, Bool, true, false, if◌then◌else◌, List, [], ◌∷◌}
use rust_on_stm32_notebook.Hardware.{M, Outcome, done, panic, waiting, chain}
use rust_on_stm32_notebook.MemCopy.{Field}
use rust_on_stm32_notebook.MemCopy.Flash2mem.{dma2_stream0}

-- What the stream does, with the values of LISR that follow: a FIFO error, a complete transfer, or neither.
pub data Verdict : Type 0 where
  fifo_error complete_transfer : List ℕ → Verdict
  neither : Verdict

module _ (feif0 teif0 htif0 tcif0 : ℕ → Bool) where
  -- The first value with one of the two flags decides, a FIFO error before a complete transfer.
  abbrev pub verdict : List ℕ → Verdict
  verdict [] = neither
  verdict (v ∷ reads) =
      let later = verdict reads in
      if feif0 v then fifo_error reads else (if tcif0 v then complete_transfer reads else later)

  -- The handler at interrupts, one for each value of LISR, until the transfer is complete and the
  -- interrupt masked. `main` has stored the peripherals before it unmasks the interrupt, so the handler
  -- finds them; `is_utf8` is whether DST_LIST is valid UTF-8 when the transfer is complete.
  unfoldable pub serve : Bool → M Field (Unit {0})
  serve is_utf8 [] = record { outcome = waiting; trace = []; rest = [] }
  serve is_utf8 (v ∷ reads) =
      let r = dma2_stream0 feif0 teif0 htif0 tcif0 true is_utf8 (v ∷ []) in
      let more = serve is_utf8 reads in
      chain r.outcome r.trace reads
        (λ _ rest. if tcif0 v then record { outcome = done tt; trace = []; rest = rest } else more)

  -- No value of LISR has the flag of a transfer error.
  abbrev pub NoError : List ℕ → Type 0
  NoError [] = Unit
  NoError (v ∷ reads) = (teif0 v ≡ false) × NoError reads

-- How the loop and the handler end, and the values that they leave.
abbrev pub loop_end : Verdict → Outcome (Unit {0}) × List ℕ
loop_end (fifo_error rest) = (panic, rest)
loop_end (complete_transfer rest) = (done tt, rest)
loop_end neither = (waiting, [])

abbrev pub handler_end : Bool → Verdict → Outcome (Unit {0}) × List ℕ
handler_end is_utf8 (fifo_error rest) = (panic, rest)
handler_end is_utf8 (complete_transfer rest) = (if is_utf8 then done tt else panic, rest)
handler_end is_utf8 neither = (waiting, [])
