-- ===== src/Ws2812/Tests.antt =====
-- The LED of s06_tim/src/bin/s06c100_ws2812_tim_dma.rs on concrete indices and flags.
use rust_on_stm32_notebook.Common.{
  ℕ, ◌+◌, ◌*◌, ◌%◌, ◌^◌, ◌≡◌, refl, arith, true, false, if◌then◌else◌, [],
}
use rust_on_stm32_notebook.Hardware.{done}
use rust_on_stm32_notebook.Ws2812.{Hisr, dma1_stream4}
use rust_on_stm32_notebook.Ws2812.Frames.{rotate, rotate_lem}
use rust_on_stm32_notebook.Ws2812.Transfers.{
  Stopped, switches, all_off, untouched, dma_error_stops, dma_done_pauses,
}

-- Tables of 50 bytes in a row from the start of the flash.
abbrev in_flash : ℕ → ℕ
in_flash i = 0x0800_0000 + i * 50

rotate_full : rotate in_flash 20 1 ≡ (1 + 20) % 8
rotate_full = rotate_lem in_flash 20 1 (omega arith)

abbrev fifo_error : Hisr
fifo_error = record { teif4 = false; feif4 = true; tcif4 = true }

fifo_error_stops : Stopped (dma1_stream4 fifo_error 5 [])
fifo_error_stops = dma_error_stops fifo_error 5 [] refl

abbrev complete : Hisr
complete = record { teif4 = false; feif4 = false; tcif4 = true }

complete_pauses :
    let r = dma1_stream4 complete 5 [] in
    (r.outcome ≡ done (if complete.tcif4 then (5 + 1) % 2 ^ 32 else 5))
    × (switches r.trace ≡ (if complete.tcif4 then all_off else untouched))
complete_pauses = dma_done_pauses complete 5 [] refl refl
