-- ===== src/Lcd/Display8.antt =====
-- The program s11_lcd1602/src/bin/s11c01_lcd1602_8pin_mode.rs: what the display receives of it.
use rust_on_stm32_notebook.Common.{ℕ, ◌<◌, ◌≤◌, ◌≡◌, ◌⊎◌, false, List, [], ◌∷◌, arith}
use rust_on_stm32_notebook.Hardware.{done, panic}
use rust_on_stm32_notebook.Lcd.{select}
use rust_on_stm32_notebook.Lcd.Panel.{Pins, Latch, byte, latches, conflict, Safe, final}
use rust_on_stm32_notebook.Lcd.Script.{command}
use rust_on_stm32_notebook.Lcd.Byte.{Ready, line, send-Does}
use rust_on_stm32_notebook.Lcd.Pin8.{send}

-- Function set twice, display on, clear, entry mode, and the address.
abbrev pub commands : List Latch
commands =
    command 0b00111000
    ∷ command 0b00111000
    ∷ command 0b00001111
    ∷ command 0b00000001
    ∷ command 0b00000110
    ∷ command 0b10000000
    ∷ []

-- With RW 0 and RS 0 or 1 a byte reaches the display whole and once, whatever is on the pins before,
-- the bus is not contended, and the pins are ready for the next transfer.
pub send_lem :
    (rs x : ℕ) (reads : List ℕ) {p : Pins}
    → Ready p
    → rs < 2
    → x < 256
    → ((send rs 0 x reads).outcome ≡ done tt)
      × (latches byte p (send rs 0 x reads).trace ≡ record { rs = line rs; bus = x } ∷ [])
      × Safe conflict p (send rs 0 x reads).trace
      × Ready (final p (send rs 0 x reads).trace)
send_lem rs x reads r hr h =
    let d = send-Does rs x reads r hr h in (d.outcome, d.takes, d.safe, d.ready)

-- Any other value of RS or RW panics before E rises: the display takes nothing.
pub send_panics :
    (rs rw x : ℕ) (reads : List ℕ) (p : Pins)
    → p.e ≡ false
    → (2 ≤ rs) ⊎ (2 ≤ rw)
    → ((send rs rw x reads).outcome ≡ panic) × (latches byte p (send rs rw x reads).trace ≡ [])
unfolding send select
send_panics rs rw x reads p low bad = ground arith
