-- ===== src/Ws2812/Transfers.antt =====
-- What the handler DMA1_STREAM4 of s06_tim/src/bin/s06c100_ws2812_tim_dma.rs does when a transfer ends.
use rust_on_stm32_notebook.Common.{
  ℕ, ◌+◌, ◌%◌, ◌^◌, ◌≡◌, refl, Bool, true, false, ◌||◌, if◌then◌else◌, List, [], ◌∷◌, arith, Option,
  none, some,
}
use rust_on_stm32_notebook.Hardware.{Value, Effect, Run, done, panic}
use rust_on_stm32_notebook.Ws2812.{Field, Hisr, dma1_stream4, stop_all, finish_frame}
use rust_on_stm32_notebook.Ws2812.Settings.{
  setting, is_stream_en, is_tim2en, is_tim3en, is_cc1de, is_tim3_cen, is_gpioben, is_dma1en,
}

-- A run that has panicked with the stream stopped and the clocks of the timers, the port and the DMA
-- taken away.
abbrev pub Stopped : Run Field ℕ → Type 0
Stopped r =
    (r.outcome ≡ panic)
    × (setting is_stream_en r.trace ≡ some Value.disabled)
    × (setting is_tim2en r.trace ≡ some Value.disabled)
    × (setting is_tim3en r.trace ≡ some Value.disabled)
    × (setting is_gpioben r.trace ≡ some Value.disabled)
    × (setting is_dma1en r.trace ≡ some Value.disabled)

stops_on :
    (t f c : Bool) (cnt : ℕ) (reads : List ℕ)
    → (t || f) ≡ true
    → Stopped (dma1_stream4 (record { teif4 = t; feif4 = f; tcif4 = c }) cnt reads)
unfolding dma1_stream4 stop_all
stops_on false false c cnt reads h = absurd (ground arith)
stops_on true false c cnt reads h = (refl, refl, refl, refl, refl, refl)
stops_on false true c cnt reads h = (refl, refl, refl, refl, refl, refl)
stops_on true true c cnt reads h = (refl, refl, refl, refl, refl, refl)

-- On a transfer or a FIFO error, whatever else is flagged, the handler panics with everything stopped.
pub dma_error_stops :
    (hisr : Hisr) (cnt : ℕ) (reads : List ℕ)
    → (hisr.teif4 || hisr.feif4) ≡ true
    → Stopped (dma1_stream4 hisr cnt reads)
dma_error_stops hisr cnt reads h = stops_on hisr.teif4 hisr.feif4 hisr.tcif4 cnt reads h

-- The last value of each switch of TIM3 in a run: its requests, its counter and its clock.
abbrev pub switches : List (Effect Field) → List (Option Value)
switches t = setting is_cc1de t ∷ setting is_tim3_cen t ∷ setting is_tim3en t ∷ []

abbrev pub all_off : List (Option Value)
all_off = some Value.disabled ∷ some Value.disabled ∷ some Value.disabled ∷ []

abbrev pub untouched : List (Option Value)
untouched = none ∷ none ∷ none ∷ []

pauses_on :
    (c : Bool) (cnt : ℕ) (reads : List ℕ)
    → let r = dma1_stream4 (record { teif4 = false; feif4 = false; tcif4 = c }) cnt reads in
      (r.outcome ≡ done (if c then (cnt + 1) % 2 ^ 32 else cnt))
      × (switches r.trace ≡ (if c then all_off else untouched))
unfolding dma1_stream4 finish_frame
pauses_on true cnt reads = (refl, refl)
pauses_on false cnt reads = (refl, refl)

-- Without an error the handler ends. A finished transfer switches off TIM3, its requests and its
-- clock, and counts the frame modulo 2^32; otherwise the switches and the count stay.
pub dma_done_pauses :
    (hisr : Hisr) (cnt : ℕ) (reads : List ℕ)
    → hisr.teif4 ≡ false
    → hisr.feif4 ≡ false
    → let r = dma1_stream4 hisr cnt reads in
      (r.outcome ≡ done (if hisr.tcif4 then (cnt + 1) % 2 ^ 32 else cnt))
      × (switches r.trace ≡ (if hisr.tcif4 then all_off else untouched))
dma_done_pauses hisr cnt reads t f =
    let e : hisr ≡ record { teif4 = false; feif4 = false; tcif4 = hisr.tcif4 } =
      λ i. record { teif4 = t i; feif4 = f i; tcif4 = hisr.tcif4 } in
    rw e (pauses_on hisr.tcif4 cnt reads)
