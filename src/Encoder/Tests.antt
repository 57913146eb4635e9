-- ===== src/Encoder/Tests.antt =====
-- Runs of the encoder programs of s06_tim/src/bin on concrete answers.
use rust_on_stm32_notebook.Common.{ℕ, ◌≡◌, refl, arith, true, false, List, [], ◌∷◌}
use rust_on_stm32_notebook.Hardware.{done, panic, poll}
use rust_on_stm32_notebook.Encoder.{ℤ, pos, negsuc, add_one, sub_one, tim2}
use rust_on_stm32_notebook.Encoder.Setup
use rust_on_stm32_notebook.Encoder.Setup.{setup_hse, setup_pins, setup_inputs, setup_edges}
use rust_on_stm32_notebook.Encoder.Polling
use rust_on_stm32_notebook.Encoder.Polling.{show_count, show_rounds}
use rust_on_stm32_notebook.Encoder.Net.{turns, ups, downs, IsDifference, turns_count_net}

-- the two ends of i16
top_panics : (tim2 (pos 32767) (0 ∷ [])).outcome ≡ panic
unfolding tim2 add_one
top_panics = refl

bottom_panics : (tim2 (negsuc 32767) (1 ∷ [])).outcome ≡ panic
unfolding tim2 sub_one
bottom_panics = refl

set_up : (Setup.main (0 ∷ 1 ∷ 1 ∷ [])).outcome ≡ done tt
unfolding Setup.main setup_hse setup_pins setup_inputs setup_edges poll
set_up = refl

two_rounds :
    (Polling.main 2 (1 ∷ 1 ∷ 7 ∷ 0 ∷ 6 ∷ 1 ∷ [])).outcome
    ≡ done (record { count = 7; down = false } ∷ record { count = 6; down = true } ∷ [])
unfolding Polling.main show_count show_rounds setup_hse setup_pins setup_inputs setup_edges poll
two_rounds = refl

abbrev five_turns : List ℕ
five_turns = 1 ∷ 1 ∷ 0 ∷ 1 ∷ 0 ∷ []

turns_count_net_example :
    (z : ℤ) × ((turns five_turns (pos 0) ≡ done z)
      × IsDifference z (ups five_turns) (downs five_turns))
turns_count_net_example = turns_count_net five_turns (omega arith)
