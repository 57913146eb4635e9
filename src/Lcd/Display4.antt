-- ===== src/Lcd/Display4.antt =====
-- The program s11_lcd1602/src/bin/s11c02_lcd1602_4pin_mode.rs: what the display receives of it.
use rust_on_stm32_notebook.Common.{ℕ, ◌<◌, ◌≡◌, ap, ◌∙◌, List, [], ◌∷◌}
use rust_on_stm32_notebook.Hardware.{done}
use rust_on_stm32_notebook.Lcd.Panel.{Pins, Latch, nibble, latches, conflict_up, Safe}
use rust_on_stm32_notebook.Lcd.Script.{Phase, pause, wait, command, pair_up, pair_up-nibbles_of}
use rust_on_stm32_notebook.Lcd.Nibble.{Ready, send_8bit-Does}
use rust_on_stm32_notebook.Lcd.Byte.{line}
use rust_on_stm32_notebook.Lcd.Pin4.{send_8bit}

-- Function set twice, display on, clear, entry mode, and the address.
abbrev pub commands : List Latch
commands =
    command 0b0010_1000
    ∷ command 0b0010_1000
    ∷ command 0b0000_1111
    ∷ command 0b0000_0001
    ∷ command 0b0000_0110
    ∷ command 0b10000000
    ∷ []

-- The nibble that sets the 4-bit mode, one more pause than the 8-pin program, then bytes in halves.
abbrev pub start_up : List Phase
start_up = pause ∷ pause ∷ pause ∷ wait ∷ wait ∷ wait ∷ wait ∷ []

abbrev pub mode_nibble : Latch
mode_nibble = command 0b0010

-- A byte with RW 0 and RS 0 or 1 reaches the display as two nibbles that join to it, and the bus is
-- not contended.
pub send_8bit_joins :
    (rs x : ℕ) (reads : List ℕ) {p : Pins}
    → Ready p
    → rs < 2
    → x < 256
    → ((send_8bit rs 0 x reads).outcome ≡ done tt)
      × (pair_up (latches nibble p (send_8bit rs 0 x reads).trace)
          ≡ record { rs = line rs; bus = x } ∷ [])
      × Safe conflict_up p (send_8bit rs 0 x reads).trace
send_8bit_joins rs x reads r hr h =
    let d = send_8bit-Does rs x reads r hr h in
    (
      d.outcome,
      ap pair_up d.takes ∙ pair_up-nibbles_of (record { rs = line rs; bus = x } ∷ []),
      d.safe,
    )
