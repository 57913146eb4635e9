-- ===== src/SpiPair/Tests.antt =====
-- The components' theorems at concrete inputs.
use rust_on_stm32_notebook.Common.{ℕ, ◌≡◌, true, List, [], ◌∷◌}
use rust_on_stm32_notebook.Hardware.{◌>>=◌}
use rust_on_stm32_notebook.Hardware.Monitor.{respects}
use rust_on_stm32_notebook.SpiPair.{main, spi1_comes, spi2_comes, session}
use rust_on_stm32_notebook.SpiPair.Wires.{at_reset, wire_after, wire_allowed}
use rust_on_stm32_notebook.SpiPair.Session.{word_sent_once}

abbrev some_answers : List ℕ
some_answers = 1 ∷ 0 ∷ 1 ∷ 1 ∷ 1 ∷ 1 ∷ 0 ∷ 1 ∷ 65451 ∷ 0 ∷ []

word_sent_once_example :
    respects wire_after wire_allowed at_reset
      ((main >>= session (spi1_comes ∷ spi1_comes ∷ spi2_comes ∷ spi1_comes ∷ []))
        some_answers).trace
    ≡ true
word_sent_once_example =
    word_sent_once (spi1_comes ∷ spi1_comes ∷ spi2_comes ∷ spi1_comes ∷ []) some_answers
