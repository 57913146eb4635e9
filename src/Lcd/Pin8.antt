-- ===== src/Lcd/Pin8.antt =====
-- s11_lcd1602/src/bin/utils/mode_8pin and the program s11c01_lcd1602_8pin_mode.rs.
use rust_on_stm32_notebook.Common.{ℕ, ◌%◌, List, [], ◌∷◌}
use rust_on_stm32_notebook.Hardware.{Value, low, high, M, pure, write, read, ◌>>=◌, ◌>>◌}
use rust_on_stm32_notebook.Lcd
use rust_on_stm32_notebook.Lcd.{Field, delay, select, bit_of, idle_loop}

unfoldable pub send : ℕ → ℕ → ℕ → M Field (Unit {0})
send rs rw data_byte = do
  write ((Lcd.odr_a 2, low) ∷ [])
  select (Lcd.odr_a 0) rs
  select (Lcd.odr_a 1) rw
  write (
      (Lcd.odr_b 7, bit_of data_byte 7)
      ∷ (Lcd.odr_b 6, bit_of data_byte 6)
      ∷ (Lcd.odr_b 5, bit_of data_byte 5)
      ∷ (Lcd.odr_b 4, bit_of data_byte 4)
      ∷ (Lcd.odr_b 3, bit_of data_byte 3)
      ∷ (Lcd.odr_b 2, bit_of data_byte 2)
      ∷ (Lcd.odr_b 1, bit_of data_byte 1)
      ∷ (Lcd.odr_b 0, bit_of data_byte 0)
      ∷ [])
  write ((Lcd.odr_a 2, high) ∷ [])
  write ((Lcd.odr_a 2, low) ∷ [])

-- One access that sets the mode of PB0 to PB7.
abbrev pub bus_mode : Value → List (Field × Value)
bus_mode v =
    (Lcd.moder_b 0, v)
    ∷ (Lcd.moder_b 1, v)
    ∷ (Lcd.moder_b 2, v)
    ∷ (Lcd.moder_b 3, v)
    ∷ (Lcd.moder_b 4, v)
    ∷ (Lcd.moder_b 5, v)
    ∷ (Lcd.moder_b 6, v)
    ∷ (Lcd.moder_b 7, v)
    ∷ []

unfoldable pub read_busy_flag : M Field ℕ
read_busy_flag = do
  write ((Lcd.odr_a 2, low) ∷ [])
  write (bus_mode Value.input)
  write ((Lcd.odr_a 0, low) ∷ (Lcd.odr_a 1, high) ∷ [])
  write ((Lcd.odr_a 2, high) ∷ [])
  idr ← read Lcd.idr_b
  write ((Lcd.odr_a 2, low) ∷ [])
  write (bus_mode Value.output)
  pure (idr % 256)

unfoldable pub wait_for_idle : ℕ → M Field (Unit {0})
wait_for_idle poll_interval_ms = idle_loop read_busy_flag (delay poll_interval_ms)

unfoldable pub wait_and_send : ℕ → ℕ → ℕ → ℕ → M Field (Unit {0})
wait_and_send rs rw data_byte poll_interval_ms = do
  wait_for_idle poll_interval_ms
  send rs rw data_byte

-- The same fields of PA0 to PA2.
abbrev pub control : (ℕ → Field) → Value → List (Field × Value)
control field v = (field 0, v) ∷ (field 1, v) ∷ (field 2, v) ∷ []

unfoldable pub setup_gpioa : M Field (Unit {0})
setup_gpioa = do
  write ((Lcd.gpioaen, Value.enabled) ∷ [])
  write (control Lcd.pupdr_a Value.pull_down)
  write (control Lcd.ot_a Value.push_pull)
  write (control Lcd.odr_a low)
  write (control Lcd.moder_a Value.output)

-- The same fields of PB0 to PB7.
abbrev pub bus : (ℕ → Field) → Value → List (Field × Value)
bus field v =
    (field 0, v)
    ∷ (field 1, v)
    ∷ (field 2, v)
    ∷ (field 3, v)
    ∷ (field 4, v)
    ∷ (field 5, v)
    ∷ (field 6, v)
    ∷ (field 7, v)
    ∷ []

unfoldable pub setup_gpiob : M Field (Unit {0})
setup_gpiob = do
  write ((Lcd.gpioben, Value.enabled) ∷ [])
  write (bus Lcd.pupdr_b Value.pull_down)
  write (bus Lcd.ot_b Value.push_pull)
  write (bus Lcd.odr_b low)
  write (bus Lcd.moder_b Value.output)

-- `for data in [..] { delay(&cp, 500_000); wait_and_send(&dp, &cp, 1, 0, data, 10); }`
unfoldable pub show : List ℕ → M Field (Unit {0})
show [] = pure tt
show (c ∷ cs) = (do delay 500_000; wait_and_send 1 0 c 10) >> show cs

-- The five characters of the program.
abbrev pub message : List ℕ
message = 0b0100_1101 ∷ 0b0110_1001 ∷ 0b0110_0001 ∷ 0b0110_1111 ∷ 0b0010_0000 ∷ []

-- the start-up commands of `main`
unfoldable pub initialise : M Field (Unit {0})
initialise = do
  delay 100_000
  send 0 0 0b00111000
  delay 40
  send 0 0 0b00111000
  wait_and_send 0 0 0b00001111 10
  wait_and_send 0 0 0b00000001 10
  wait_and_send 0 0 0b00000110 10
  wait_and_send 0 0 0b10000000 10

-- `main` up to its endless loop
unfoldable pub main : M Field (Unit {0})
main = do setup_gpioa; setup_gpiob; initialise; show message
