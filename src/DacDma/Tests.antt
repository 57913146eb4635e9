-- ===== src/DacDma/Tests.antt =====
-- The component's theorem at a concrete input.
use rust_on_stm32_notebook.Common.{ℕ, ◌≡◌, true, List, [], ◌∷◌}
use rust_on_stm32_notebook.Hardware.Monitor.{respects}
use rust_on_stm32_notebook.DacDma.Setup.{main}
use rust_on_stm32_notebook.DacDma.Guard.{known_after, setup_allowed, at_reset, samples_flow_last}

-- HSE, the voltage, the PLL and the switch are ready, the stream runs at first
abbrev some_answers : List ℕ
some_answers = 1 ∷ 0 ∷ 1 ∷ 1 ∷ 1 ∷ 1 ∷ 1 ∷ 0 ∷ []

samples_flow_last_example :
    respects known_after setup_allowed at_reset (main 0x08004000 0x40007408 some_answers).trace
    ≡ true
samples_flow_last_example = samples_flow_last 0x08004000 0x40007408 some_answers
