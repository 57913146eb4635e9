-- ===== src/Systick/Tests.antt =====
-- The component's theorem at a concrete input.
use rust_on_stm32_notebook.Common.{ℕ, ◌≡◌, refl, ◌-◌, ◌^◌, List, [], ◌∷◌, length, arith}
use rust_on_stm32_notebook.Hardware.{done, panic}
use rust_on_stm32_notebook.Hardware.Laws.{hit, miss}
use rust_on_stm32_notebook.Systick
use rust_on_stm32_notebook.Systick.{count_rounds}
use rust_on_stm32_notebook.Systick.Exception.{sys_tick}
use rust_on_stm32_notebook.Systick.Counting.{session, late, flags, counts_agree}

abbrev three_ticks : List ℕ
three_ticks = 2 ∷ 0 ∷ 3 ∷ []

counts_agree_example :
    ((Systick.main (length three_ticks) (0 ∷ 1 ∷ 0 ∷ 0 ∷ 1 ∷ flags three_ticks)).outcome
      ≡ (session (length three_ticks) 0 []).outcome)
    × (((count_rounds 1 (2 ^ 31 - 1) (late 4 [])).outcome ≡ panic)
        × ((sys_tick (2 ^ 31 - 1) []).outcome ≡ done (2 ^ 31)))
counts_agree_example =
    counts_agree three_ticks 4 [] (miss refl (hit refl)) (miss refl (miss refl (hit refl)))
      (omega arith)
