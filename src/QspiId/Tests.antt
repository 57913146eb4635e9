-- ===== src/QspiId/Tests.antt =====
-- The components' theorems at concrete inputs.
use rust_on_stm32_notebook.Common.{ℕ, ◌≡◌, true, List, [], ◌∷◌, ◌+◌, ◌*◌, ◌^◌, arith}
use rust_on_stm32_notebook.Hardware.{done, panic}
use rust_on_stm32_notebook.Hardware.Monitor.{respects}
use rust_on_stm32_notebook.QspiId
use rust_on_stm32_notebook.QspiId.{read_uid}
use rust_on_stm32_notebook.QspiId.Quad
use rust_on_stm32_notebook.QspiId.Stages.{running, stage_after, command_allowed}
use rust_on_stm32_notebook.QspiId.Uid.{word, number, uid_in_order, third_word_panics}
use rust_on_stm32_notebook.QspiId.Commands.{commands_when_idle}

uid_in_order_example :
    (read_uid (1 ∷ word 209 98 136 205 ∷ 1 ∷ word 223 44 12 35 ∷ 0 ∷ [])).outcome
    ≡ done (number 209 98 136 205 * 2 ^ 32 + number 223 44 12 35)
uid_in_order_example =
    uid_in_order 0 0 209 98 136 205 223 44 12 35 [] (omega arith) (omega arith) (omega arith)
      (omega arith) (omega arith) (omega arith) (omega arith) (omega arith)

three_words_panic : (read_uid (1 ∷ 7 ∷ 1 ∷ 8 ∷ 1 ∷ 9 ∷ [])).outcome ≡ panic
three_words_panic = third_word_panics 0 0 0 7 8 9 []

-- HSE is ready and used, the waits end, BUSY holds once
abbrev some_answers : List ℕ
some_answers = 1 ∷ 1 ∷ 1 ∷ 0 ∷ 0 ∷ 1 ∷ 0 ∷ 1 ∷ 1458415 ∷ 0 ∷ 1 ∷ 5 ∷ 1 ∷ 6 ∷ 0 ∷ 1 ∷ 5615 ∷ 0 ∷ []

commands_when_idle_example :
    (respects stage_after command_allowed running (QspiId.main some_answers).trace ≡ true)
    × (respects stage_after command_allowed running (Quad.main some_answers).trace ≡ true)
commands_when_idle_example = commands_when_idle some_answers
