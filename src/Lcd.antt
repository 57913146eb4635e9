-- ===== src/Lcd.antt =====
-- s11_lcd1602: the driver of an LCD1602 display on GPIO pins. PA0, PA1, PA2 are RS, RW, E; the data
-- bus is PB0 to PB7, or PB4 to PB7 in the 4-pin mode. This module holds the registers and
-- utils/common.rs; `Pin8` and `Pin4` are the two drivers, and `Panel` is what the display sees.
pub mod Pin8
pub mod Pin4
pub mod Panel
pub mod Driver
pub mod Idle
pub mod Byte
pub mod Display8
pub mod Nibble
pub mod Display4
pub mod Script
mod Tests
use rust_on_stm32_notebook.Common.{
  ℕ, zero, suc, ◌/◌, ◌%◌, ◌^◌, ◌==◌, Bool, if◌then◌else◌, List, [], ◌∷◌, length,
}
use rust_on_stm32_notebook.Hardware.{
  Value, bits, low, high, M, fail, pure, write, poll, ◌>>=◌, ◌>>◌, waiting,
}

-- The fields that the drivers touch, by port and pin; `rvr` and `csr` are the SysTick registers.
pub data Field : Type 0 where
  odr_a moder_a pupdr_a ot_a : ℕ → Field
  odr_b moder_b pupdr_b ot_b : ℕ → Field
  idr_b gpioaen gpioben rvr csr : Field

-- COUNTFLAG, bit 16 of SYST_CSR
abbrev pub count_flag : ℕ → Bool
count_flag v = v / 2 ^ 16 % 2 == 1

unfoldable pub delay : ℕ → M Field (Unit {0})
delay micro_sec = do
  write ((rvr, bits micro_sec) ∷ [])
  write ((csr, bits 1) ∷ [])
  poll csr count_flag

-- `match v { 0 => low, 1 => high, _ => panic!() }` on a control pin
unfoldable pub select : Field → ℕ → M Field (Unit {0})
select pin v =
    if v == 0 then write ((pin, low) ∷ []) else (if v == 1 then write ((pin, high) ∷ []) else fail)

-- Bit k of a byte goes to a data pin.
abbrev pub bit_of : ℕ → ℕ → Value
bit_of byte k = Value.bit (byte / 2 ^ k % 2 == 1)

-- `while read_busy_flag(dp) >> 7 & 1 == 1 { delay(..) }` for at most the given rounds. Each round
-- reads at least once, so one more round than there are answers is enough.
unfoldable pub idle_rounds : ℕ → M Field ℕ → M Field (Unit {0}) → M Field (Unit {0})
idle_rounds zero read_busy_flag pause reads = record { outcome = waiting; trace = []; rest = reads }
idle_rounds (suc n) read_busy_flag pause reads =
    let again = pause >> idle_rounds n read_busy_flag pause in
    (read_busy_flag >>= λ state. if state / 2 ^ 7 % 2 == 1 then again else pure tt) reads

unfoldable pub idle_loop : M Field ℕ → M Field (Unit {0}) → M Field (Unit {0})
idle_loop read_busy_flag pause reads = idle_rounds (suc (length reads)) read_busy_flag pause reads
