-- ===== src/SpiPair/Arrival.antt =====
-- The way of the word in s03_spi/src/bin/s03c02_spi1_to_spi2.rs.
use rust_on_stm32_notebook.Common.{ℕ, zero, suc, true, false, List, ◌∷◌}
use rust_on_stm32_notebook.SpiPair
use rust_on_stm32_notebook.SpiPair.{Shared, Interrupt, spi1_comes}

-- n interrupts of SPI1, and the answers to them of a busy master
abbrev pub tries : ℕ → List Interrupt → List Interrupt
tries zero next = next
tries (suc n) next = spi1_comes ∷ tries n next

abbrev pub busy : ℕ → List ℕ → List ℕ
busy zero rest = rest
busy (suc n) rest = 1 ∷ busy n rest

abbrev pub all_released : Shared
all_released = record { master = false; master_cs = true; slave = false; sent = true }

-- the handler of SPI1 that sends, with the chip select high or low before
abbrev sent_only : Shared
sent_only = record { master = false; master_cs = true; slave = true; sent = true }
