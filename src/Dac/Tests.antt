-- ===== src/Dac/Tests.antt =====
-- Runs of the loop of s20_dac/src/bin/s20c01_2sin_wave.rs at concrete rounds.
use rust_on_stm32_notebook.Common.{ℕ, ◌<◌, ◌≡◌, refl, [], ◌∷◌, some, get_elem?}
use rust_on_stm32_notebook.Hardware.{done}
use rust_on_stm32_notebook.Dac.{cos_wave_100, next_sample}
use rust_on_stm32_notebook.Hardware.Laws.{hit}
use rust_on_stm32_notebook.Dac.Setup.{main}
use rust_on_stm32_notebook.Dac.Wave.{voltages, played, wave, as_samples, round_plays, main_plays}

-- The last sample of the first pass, after which the code returns to the second sample.
round_plays_last :
    let r = next_sample (played 99) [] in
    (r.outcome ≡ done (played 100))
    × ((v : ℕ) × (voltages r.trace ≡ v ∷ [])
        × (get_elem? cos_wave_100 (played 99) ≡ some v)
        × (v < 4096))
round_plays_last = round_plays 99 []

-- Every wait ends at once: two rounds.
main_plays_example :
    let r = main 2 (1 ∷ 1 ∷ 1 ∷ 1 ∷ []) in
    (r.outcome ≡ done (played 2)) × (as_samples (voltages r.trace) ≡ wave 2 0)
main_plays_example = main_plays 2 (hit refl) (hit refl) (hit refl) (hit refl)
