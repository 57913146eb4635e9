-- ===== src/Adc/Voltage.antt =====
-- The f32 arithmetic of s09_adc/src/bin/s09c01_adc_basic_setup.rs.
use rust_on_stm32_notebook.Common.{
  ℕ, zero, suc, ◌+◌, ◌-◌, ◌*◌, ◌/◌, ◌%◌, ◌^◌, ◌==◌, ◌≤◌, ◌≡◌, inl, inr, ◌&&◌, ◌||◌, ltb, Bool-cases,
  arith,
}
use rust_on_stm32_notebook.Us100.Distance.{IsClose, round_f32-IsClose}
use rust_on_stm32_notebook.Adc.{shift, round_div, reference, voltage}

doubled : (n k : ℕ) → n * 2 ^ suc k ≡ 2 * n * 2 ^ k
doubled n k = grind arith

-- twelve doublings are enough
shift_reaches : (fuel n : ℕ) → 4095 ≤ n * 2 ^ fuel → 4095 ≤ n * 2 ^ shift fuel n
unfolding shift
shift_reaches zero n h = h
shift_reaches (suc fuel) n h = elim (Bool-cases (ltb n 4095)) [
  | inl e ↦
      rw e (
        rw (doubled n (shift fuel (2 * n))) (shift_reaches fuel (2 * n) (rw (doubled n fuel) at h)))
  | inr e ↦ rw e (ground arith)
]

round_div-close :
    (n : ℕ)
    → (2 * (4095 * round_div n 4095) ≤ 2 * n + 4095)
      × (2 * n ≤ 2 * (4095 * round_div n 4095) + 4095)
round_div-close n =
    elim (Bool-cases (ltb (2 * (n % 4095)) 4095 || (2 * (n % 4095) == 4095 && n / 4095 % 2 == 0))) [
      | inl e ↦ rw e (omega arith, ground arith)
      | inr e ↦ rw e (ground arith, ground arith)
    ]

-- The numerator of the exact voltage 33 * raw / (10 * 4095), in the unit 1 / 2 ^ (45 + shift) of the
-- mantissa times 40950.
abbrev pub exact : ℕ → ℕ
exact raw_value = 33 * (raw_value * 2 ^ shift 12 raw_value) * 2 ^ 45

-- from the two roundings to the whole error, for the raw value x doubled to at least 4095, its rounded
-- quotient m and the rounded product w
two_roundings :
    (x m w : ℕ)
    → 4095 ≤ x
    → 2 * (4095 * m) ≤ 2 * (x * 2 ^ 23) + 4095
    → 2 * (x * 2 ^ 23) ≤ 2 * (4095 * m) + 4095
    → IsClose w (m * reference)
    → (2 ^ 22 * (40950 * w) ≤ (2 ^ 22 + 1) * (33 * x * 2 ^ 45))
      × ((2 ^ 22 - 1) * (33 * x * 2 ^ 45) ≤ 2 ^ 22 * (40950 * w))
two_roundings x m w h a b c = (omega (arith, c.above), omega (arith, c.below))

-- For every raw value from 1 to 4095 the voltage that the code computes in f32, with its rounded 3.3, is the
-- exact share of 3.3 V up to one part in 2 ^ 22.
pub voltage_accurate :
    (raw_value : ℕ)
    → 1 ≤ raw_value
    → raw_value ≤ 4095
    → (2 ^ 22 * (40950 * (voltage raw_value).mantissa) ≤ (2 ^ 22 + 1) * exact raw_value)
      × ((2 ^ 22 - 1) * exact raw_value ≤ 2 ^ 22 * (40950 * (voltage raw_value).mantissa))
unfolding voltage
voltage_accurate raw_value h k =
    let x = raw_value * 2 ^ shift 12 raw_value in
    let (a, b) = round_div-close (x * 2 ^ 23) in
    two_roundings x (round_div (x * 2 ^ 23) 4095) _ (shift_reaches 12 raw_value (omega arith)) a b
      (round_f32-IsClose _)
