-- ===== src/SpiDma/Tests.antt =====
-- Runs of s08_dma/src/bin/s08c02_spi_slave_read_dma.rs on concrete answers.
use rust_on_stm32_notebook.Common.{◌≡◌, refl, true, false, [], ◌∷◌, take, leb}
use rust_on_stm32_notebook.Hardware.{done, panic, modify, Value, poll}
use rust_on_stm32_notebook.Hardware.Monitor.{respects}
use rust_on_stm32_notebook.SpiDma
use rust_on_stm32_notebook.SpiDma.{src_list, spi1, dma1_stream3, transfer_completed}
use rust_on_stm32_notebook.SpiDma.Setup.{
  disable_stream, stop_stream, configure_stream, setup_dma1, setup_spi2, setup_spi1, main,
}
use rust_on_stm32_notebook.SpiDma.Guard.{
  unknown, stream_after, stream_allowed, main_configures_stopped,
}
use rust_on_stm32_notebook.SpiDma.Sending.{serve, sends_list}

-- a ninth interrupt without the mask would panic
ninth : (spi1 8 []).outcome ≡ panic
unfolding spi1
ninth = refl

half_then_complete :
    (dma1_stream3
      (record { fifo_error = false; transfer_error = false; half = true; complete = true })
      []).trace
    ≡ modify ((SpiDma.chtif3, Value.clear) ∷ [])
      ∷ modify ((SpiDma.ctcif3, Value.clear) ∷ [])
      ∷ modify ((SpiDma.nvic_dma1_stream3, Value.masked) ∷ [])
      ∷ modify ((SpiDma.dma1en, Value.disabled) ∷ [])
      ∷ modify ((SpiDma.spi2en, Value.disabled) ∷ [])
      ∷ []
unfolding dma1_stream3 transfer_completed
half_then_complete = refl

-- the stream runs at first, and stops after two reads
set_up_ends : (main 7 9 (1 ∷ 1 ∷ 0 ∷ [])).outcome ≡ done tt
unfolding main setup_dma1 setup_spi2 setup_spi1 stop_stream disable_stream configure_stream poll
set_up_ends = refl

main_configures_stopped_example :
    respects stream_after stream_allowed unknown (main 7 9 (1 ∷ 1 ∷ 0 ∷ [])).trace ≡ true
main_configures_stopped_example = main_configures_stopped 7 9 (1 ∷ 1 ∷ 0 ∷ [])

sends_list_example :
    ((serve 5 0).alive ≡ true)
    × (((serve 5 0).sent ≡ take 5 src_list) × ((serve 5 0).is_masked ≡ leb 8 5))
sends_list_example = sends_list 5
