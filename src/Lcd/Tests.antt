-- ===== src/Lcd/Tests.antt =====
-- Runs of the two display programs of s11_lcd1602 on concrete answers of the hardware.
use rust_on_stm32_notebook.Common.{ℕ, ◌≡◌, refl, inl, true, false, List, [], ◌∷◌, arith}
use rust_on_stm32_notebook.Hardware.{done, panic}
use rust_on_stm32_notebook.Lcd.Panel.{
  Pins, Controlled, byte, nibble, latches, conflict, conflict_up, Safe, final,
}
use rust_on_stm32_notebook.Lcd.Script.{pair_up}
use rust_on_stm32_notebook.Lcd.Byte
use rust_on_stm32_notebook.Lcd.Nibble
use rust_on_stm32_notebook.Lcd.Display8
use rust_on_stm32_notebook.Lcd.Display4
use rust_on_stm32_notebook.Lcd.Pin8
use rust_on_stm32_notebook.Lcd.Pin4

-- COUNTFLAG
abbrev elapsed : ℕ
elapsed = 65536

-- The pins after the set-up.
abbrev set_up : Pins
set_up = record {
  rs = false;
  rw = false;
  e = false;
  level = λ k. false;
  drives = λ k. true;
  drives_a = λ k. true;
  clocked_a = true;
  clocked_b = true;
  lost = false;
}

set_up-Controlled : Controlled set_up
set_up-Controlled = record {
  a0 = refl;
  a1 = refl;
  a2 = refl;
  clock_a = refl;
  clock_b = refl;
  kept = refl;
}

set_up-Ready8 : Byte.Ready set_up
set_up-Ready8 = record {
  control = set_up-Controlled;
  e_low = refl;
  d0 = refl;
  d1 = refl;
  d2 = refl;
  d3 = refl;
  d4 = refl;
  d5 = refl;
  d6 = refl;
  d7 = refl;
}

set_up-Ready4 : Nibble.Ready set_up
set_up-Ready4 = record {
  control = set_up-Controlled;
  e_low = refl;
  d4 = refl;
  d5 = refl;
  d6 = refl;
  d7 = refl;
}

-- A display that is busy once before the first command that waits.
abbrev start8 : List ℕ
start8 = 0 ∷ elapsed ∷ elapsed ∷ 128 ∷ elapsed ∷ 1 ∷ 2 ∷ 3 ∷ 4 ∷ []

abbrev text8 : List ℕ
text8 = elapsed ∷ 0 ∷ elapsed ∷ 0 ∷ elapsed ∷ 0 ∷ elapsed ∷ 0 ∷ elapsed ∷ 0 ∷ []

send_letter :
    ((Pin8.send 1 0 0x4d []).outcome ≡ done tt)
    × (latches byte set_up (Pin8.send 1 0 0x4d []).trace ≡ record { rs = true; bus = 0x4d } ∷ [])
    × Safe conflict set_up (Pin8.send 1 0 0x4d []).trace
    × Byte.Ready (final set_up (Pin8.send 1 0 0x4d []).trace)
send_letter = Display8.send_lem 1 0x4d [] set_up-Ready8 (omega arith) (omega arith)

send_rs_two :
    ((Pin8.send 2 0 0x4d []).outcome ≡ panic)
    × (latches byte set_up (Pin8.send 2 0 0x4d []).trace ≡ [])
send_rs_two = Display8.send_panics 2 0 0x4d [] set_up refl (inl (omega arith))

abbrev start4 : List ℕ
start4 = elapsed ∷ elapsed ∷ elapsed ∷ 128 ∷ 0 ∷ elapsed ∷ 0 ∷ 0 ∷ 0 ∷ 0 ∷ 0 ∷ 0 ∷ 0 ∷ 0 ∷ []

abbrev text4 : List ℕ
text4 = elapsed ∷ 0 ∷ 0 ∷ elapsed ∷ 0 ∷ 0 ∷ elapsed ∷ 0 ∷ 0 ∷ elapsed ∷ 0 ∷ 0 ∷ elapsed ∷ 0 ∷ 0 ∷ []

one_byte_joins :
    ((Pin4.send_8bit 1 0 0x4d []).outcome ≡ done tt)
    × (pair_up (latches nibble set_up (Pin4.send_8bit 1 0 0x4d []).trace)
        ≡ record { rs = true; bus = 0x4d } ∷ [])
    × Safe conflict_up set_up (Pin4.send_8bit 1 0 0x4d []).trace
one_byte_joins = Display4.send_8bit_joins 1 0x4d [] set_up-Ready4 (omega arith) (omega arith)

-- PB8 reads high with the second half while the display is busy.
high_pins_overflow : (Pin4.read_busy_flag (0xf0 ∷ 0x100 ∷ [])).outcome ≡ panic
high_pins_overflow = Nibble.read_busy_flag_overflows 0xf0 0x100 [] (omega arith)
