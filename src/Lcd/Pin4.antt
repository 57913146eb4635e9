-- ===== src/Lcd/Pin4.antt =====
-- s11_lcd1602/src/bin/utils/mode_4pin and the program s11c02_lcd1602_4pin_mode.rs.
use rust_on_stm32_notebook.Common.{ℕ, ◌+◌, ◌*◌, ◌/◌, ◌%◌, List, [], ◌∷◌, ltb, if◌then◌else◌}
use rust_on_stm32_notebook.Hardware.{Value, low, high, M, pure, fail, write, read, ◌>>=◌, ◌>>◌}
use rust_on_stm32_notebook.Lcd
use rust_on_stm32_notebook.Lcd.{Field, delay, select, bit_of, idle_loop}

-- the body of `send_4bit` after its assertion
unfoldable pub put_4bit : ℕ → ℕ → ℕ → M Field (Unit {0})
put_4bit rs rw nibble = do
  write ((Lcd.odr_a 2, low) ∷ [])
  select (Lcd.odr_a 0) rs
  select (Lcd.odr_a 1) rw
  write (
      (Lcd.odr_b 7, bit_of nibble 3)
      ∷ (Lcd.odr_b 6, bit_of nibble 2)
      ∷ (Lcd.odr_b 5, bit_of nibble 1)
      ∷ (Lcd.odr_b 4, bit_of nibble 0)
      ∷ [])
  write ((Lcd.odr_a 2, high) ∷ [])
  write ((Lcd.odr_a 2, low) ∷ [])

-- `assert!(data < 2u8.pow(4), ..)` comes first
unfoldable pub send_4bit : ℕ → ℕ → ℕ → M Field (Unit {0})
send_4bit rs rw nibble = if ltb nibble 16 then put_4bit rs rw nibble else fail

unfoldable pub send_8bit : ℕ → ℕ → ℕ → M Field (Unit {0})
send_8bit rs rw data_byte = do send_4bit rs rw (data_byte / 16); send_4bit rs rw (data_byte % 16)

-- The same fields of PB4 to PB7, as the set-up and `read_busy_flag` list them.
abbrev pub bus_up : (ℕ → Field) → Value → List (Field × Value)
bus_up field v = (field 4, v) ∷ (field 5, v) ∷ (field 6, v) ∷ (field 7, v) ∷ []

abbrev pub bus_down : (ℕ → Field) → Value → List (Field × Value)
bus_down field v = (field 7, v) ∷ (field 6, v) ∷ (field 5, v) ∷ (field 4, v) ∷ []

-- `(bits >> 4) as u8`
abbrev pub nibble_sample : ℕ → ℕ
nibble_sample idr = idr / 16 % 256

-- `state_high.checked_shl(4).unwrap() + state_low`, on u8: the shift drops high bits, the sum panics
unfoldable pub join : ℕ → ℕ → M Field ℕ
join state_high state_low =
    let sum = state_high * 16 % 256 + state_low in if ltb sum 256 then pure sum else fail

unfoldable pub read_busy_flag : M Field ℕ
read_busy_flag = do
  write ((Lcd.odr_a 2, low) ∷ [])
  write (bus_down Lcd.moder_b Value.input)
  write ((Lcd.odr_a 0, low) ∷ (Lcd.odr_a 1, high) ∷ [])
  write ((Lcd.odr_a 2, high) ∷ [])
  high_idr ← read Lcd.idr_b
  write ((Lcd.odr_a 2, low) ∷ [])
  write ((Lcd.odr_a 2, high) ∷ [])
  low_idr ← read Lcd.idr_b
  write ((Lcd.odr_a 2, low) ∷ [])
  write (bus_down Lcd.moder_b Value.output)
  join (nibble_sample high_idr) (nibble_sample low_idr)

unfoldable pub wait_for_idle : ℕ → M Field (Unit {0})
wait_for_idle poll_interval_ms = idle_loop read_busy_flag (delay poll_interval_ms)

unfoldable pub wait_and_send_8bit : ℕ → ℕ → ℕ → ℕ → M Field (Unit {0})
wait_and_send_8bit rs rw data_byte poll_interval_ms = do
  wait_for_idle poll_interval_ms
  send_8bit rs rw data_byte

unfoldable pub wait_and_send_4bit : ℕ → ℕ → ℕ → ℕ → M Field (Unit {0})
wait_and_send_4bit rs rw nibble poll_interval_ms = do
  wait_for_idle poll_interval_ms
  send_4bit rs rw nibble

-- The same fields of PA0 to PA2.
abbrev pub control : (ℕ → Field) → Value → List (Field × Value)
control field v = (field 0, v) ∷ (field 1, v) ∷ (field 2, v) ∷ []

unfoldable pub setup_gpioa : M Field (Unit {0})
setup_gpioa = do
  write ((Lcd.gpioaen, Value.enabled) ∷ [])
  write (control Lcd.pupdr_a Value.pull_down)
  write (control Lcd.ot_a Value.push_pull)
  write (control Lcd.odr_a low)
  write (control Lcd.moder_a Value.output)

unfoldable pub setup_gpiob : M Field (Unit {0})
setup_gpiob = do
  write ((Lcd.gpioben, Value.enabled) ∷ [])
  write (bus_up Lcd.pupdr_b Value.pull_down)
  write (bus_up Lcd.ot_b Value.push_pull)
  write (bus_up Lcd.odr_b low)
  write (bus_up Lcd.moder_b Value.output)

-- `for data in [..] { delay(&cp, 500_000); wait_and_send_8bit(&dp, &cp, 1, 0, data, 10); }`
unfoldable pub show : List ℕ → M Field (Unit {0})
show [] = pure tt
show (c ∷ cs) = (do delay 500_000; wait_and_send_8bit 1 0 c 10) >> show cs

-- The five characters of the program.
abbrev pub message : List ℕ
message = 0b0100_1101 ∷ 0b0110_1001 ∷ 0b0110_0001 ∷ 0b0110_1111 ∷ 0b0010_0000 ∷ []

-- the start-up commands of `main`
unfoldable pub initialise : M Field (Unit {0})
initialise = do
  delay 100_000
  send_4bit 0 0 0b0010
  delay 40
  send_8bit 0 0 0b0010_1000
  delay 40
  send_8bit 0 0 0b0010_1000
  wait_and_send_8bit 0 0 0b0000_1111 10
  wait_and_send_8bit 0 0 0b0000_0001 10
  wait_and_send_8bit 0 0 0b0000_0110 10
  wait_and_send_8bit 0 0 0b10000000 10

-- `main` up to its endless loop
unfoldable pub main : M Field (Unit {0})
main = do setup_gpioa; setup_gpiob; initialise; show message
