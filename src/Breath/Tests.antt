-- ===== src/Breath/Tests.antt =====
-- The breathing light of s06_tim/src/bin/s06c03_led_breath.rs from the state after its set-up.
use rust_on_stm32_notebook.Common.{ℕ, ◌+◌, ◌*◌, ◌≤◌, ◌≡◌, arith}
use rust_on_stm32_notebook.Breath.{dimming, lighting, max_arr_value}
use rust_on_stm32_notebook.Breath.Cycle.{
  Moves, breathe, breathes, breathe_in_range, breathes_without_drift,
}

dimming_in_range :
    ((breathe (dimming, 999)).1 ≤ max_arr_value)
    × Moves dimming 999 (breathe (dimming, 999)).0 (breathe (dimming, 999)).1
dimming_in_range = breathe_in_range dimming 999 (omega arith)

breathes_without_drift_example :
    (n : ℕ) × (n ≤ 40) × ((k : ℕ) → breathes (n + k * 38) (dimming, 999) ≡ (lighting, 50))
breathes_without_drift_example = breathes_without_drift dimming 999 (omega arith)
