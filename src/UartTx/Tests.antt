-- ===== src/UartTx/Tests.antt =====
-- The components' theorems at concrete inputs.
use rust_on_stm32_notebook.Common.{
  ℕ, ◌≡◌, ◌+◌, ◌/◌, ◌%◌, ltb, if◌then◌else◌, List, [], ◌∷◌, arith, replicate,
}
use rust_on_stm32_notebook.Hardware.{done}
use rust_on_stm32_notebook.Hardware.Sending.{sent}
use rust_on_stm32_notebook.UartTx.Lines.{written, session, lines, session_numbers_lines}

-- decimal digits below a hundred
abbrev digits : ℕ → List ℕ
digits n = if ltb n 10 then (48 + n) ∷ [] else (48 + n / 10) ∷ (48 + n % 10) ∷ []

session_numbers_lines_example :
    ((session digits 2 9 (replicate 30 1)).outcome ≡ done 11)
    × (sent written (session digits 2 9 (replicate 30 1)).trace ≡ lines digits 2 9)
session_numbers_lines_example =
    session_numbers_lines digits 2 9 (replicate 30 1) (omega arith) (omega arith)
