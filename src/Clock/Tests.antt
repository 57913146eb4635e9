-- ===== src/Clock/Tests.antt =====
-- Runs of the programs of s01_rcc/src/bin on concrete answers.
use rust_on_stm32_notebook.Common.{ℕ, ◌≡◌, refl, arith, true, List, [], ◌∷◌}
use rust_on_stm32_notebook.Hardware.{done, poll_count, poll}
use rust_on_stm32_notebook.Hardware.Monitor.{respects}
use rust_on_stm32_notebook.Clock
use rust_on_stm32_notebook.Clock.{configure_pll, sum_waits}
use rust_on_stm32_notebook.Clock.Raw
use rust_on_stm32_notebook.Clock.Rearranged
use rust_on_stm32_notebook.Clock.Outputs
use rust_on_stm32_notebook.Clock.Outputs.{export_clocks, start_compensation, output_pll}
use rust_on_stm32_notebook.Clock.Guard.{
  known_after, switch_allowed, after_reset, switches_when_ready,
}
use rust_on_stm32_notebook.Clock.Waits.{four_waits, counts, both_count_waits}

abbrev answers : List ℕ
answers = four_waits 1 0 2 1 []

outputs_end : (Outputs.main (0 ∷ 1 ∷ 1 ∷ 1 ∷ 1 ∷ 4 ∷ 256 ∷ [])).outcome ≡ done tt
unfolding Outputs.main output_pll start_compensation configure_pll poll
outputs_end = refl

exported : (export_clocks (0 ∷ 0 ∷ 1 ∷ [])).outcome ≡ done 3
unfolding export_clocks poll_count
exported = refl

switches_when_ready_example :
    (respects known_after switch_allowed after_reset (Clock.main answers).trace ≡ true)
    × ((respects known_after switch_allowed after_reset (Rearranged.main answers).trace ≡ true)
        × (respects known_after switch_allowed after_reset (Outputs.main answers).trace ≡ true))
switches_when_ready_example = switches_when_ready answers

both_count_waits_example :
    ((Clock.main answers).outcome ≡ done (counts 1 0 2 1))
    × ((Rearranged.main answers).outcome ≡ done (counts 1 0 2 1))
both_count_waits_example = both_count_waits 1 0 2 1 [] (omega arith)
