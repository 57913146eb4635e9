-- ===== src/Adc/Tests.antt =====
-- The component's theorems at concrete inputs.
use rust_on_stm32_notebook.Common.{ℕ, ◌≡◌, ◌≤◌, ◌+◌, ◌-◌, ◌*◌, ◌^◌, List, [], ◌∷◌, length, arith}
use rust_on_stm32_notebook.Hardware.{done}
use rust_on_stm32_notebook.Adc.{voltage}
use rust_on_stm32_notebook.Adc.Voltage.{exact, voltage_accurate}
use rust_on_stm32_notebook.Adc.Numbers.{session, conversions, numbered, session_numbers_voltages}

voltage_accurate_example :
    (2 ^ 22 * (40950 * (voltage 2048).mantissa) ≤ (2 ^ 22 + 1) * exact 2048)
    × ((2 ^ 22 - 1) * exact 2048 ≤ 2 ^ 22 * (40950 * (voltage 2048).mantissa))
voltage_accurate_example = voltage_accurate 2048 (omega arith) (omega arith)

abbrev three_values : List ℕ
three_values = 0 ∷ 2048 ∷ 4095 ∷ []

three_voltages :
    (session (length three_values) 7 (conversions three_values)).outcome
    ≡ done (record { count = 7 + length three_values; lines = numbered 7 three_values })
three_voltages = session_numbers_voltages three_values 7 (omega arith)
