-- ===== src/Adc.antt =====
-- s09_adc/src/bin/s09c01_adc_basic_setup.rs: a timer triggers a conversion every 0.1 s, whose handler logs
-- the voltage. The static G_CNT is the argument and part of the result of the handler, the log line is the
-- other part.
pub mod Setup
pub mod Guard
pub mod Voltage
pub mod Numbers
mod Tests
use rust_on_stm32_notebook.Common.{
  ℕ, zero, suc, ◌+◌, ◌*◌, ◌/◌, ◌%◌, ◌^◌, ◌==◌, ◌&&◌, ◌||◌, if◌then◌else◌, [], ◌∷◌, ltb,
}
use rust_on_stm32_notebook.Hardware.{Value, M, pure, fail, write, read, is_set, ◌>>=◌, ◌>>◌}
use rust_on_stm32_notebook.Us100.{round_f32}

pub data Field : Type 0 where
  hseon hserdy pllsrc pllm plln pllp pwren vos dcrst icrst latency dcen icen prften : Field
  ppre1 pllon vosrdy pllrdy sw sws_is_pll gpioaen moder6 adc1en adcpre sq1 l smp6 : Field
  extsel exten eocie nvic_adc adon tim2en psc arr arpe cc2s oc2pe oc2m ccr2 cc2np cc2p cc2e cen :
      Field
  eoc dr : Field

-- The f32 value mantissa / 2 ^ (45 + shift).
pub record Volts : Type 0 where
  pub mantissa : ℕ
  pub shift : ℕ

-- By how many doublings a raw value comes to 4095: the exponent of the quotient.
unfoldable pub shift : ℕ → ℕ → ℕ
shift zero n = 0
shift (suc fuel) n = let more = shift fuel (2 * n) in if ltb n 4095 then suc more else 0

-- the nearest whole quotient, ties to even
abbrev pub round_div : ℕ → ℕ → ℕ
round_div n d =
    let q = n / d in if ltb (2 * (n % d)) d || (2 * (n % d) == d && q % 2 == 0) then q else q + 1

-- 3.3 as f32 is 13841203 / 2 ^ 22.
abbrev pub reference : ℕ
reference = 13841203

-- `raw_value as f32 / 4095 as f32 * 3.3`, for the 12 bits that the ADC gives: a quotient in [1, 2) has 23
-- bits after the point, and the product is rounded.
unfoldable pub voltage : ℕ → Volts
voltage raw_value =
    let s = shift 12 raw_value in
    record {
      mantissa = round_f32 (round_div (raw_value * 2 ^ s * 2 ^ 23) 4095 * reference);
      shift = s;
    }

-- What the handler leaves in G_CNT, and the number and the voltage of its line.
pub record Logged : Type 0 where
  pub next : ℕ
  pub count : ℕ
  pub volts : Volts

-- `count + 1` on u32, in a debug build
unfoldable pub next_count : ℕ → M Field ℕ
next_count count = if ltb (count + 1) (2 ^ 32) then pure (count + 1) else fail

unfoldable pub complete : ℕ → M Field Logged
complete count = do
  write ((eoc, Value.clear_bit) ∷ [])
  raw_value ← read dr
  next ← next_count count
  pure (record { next = next; count = count; volts = voltage (raw_value % 2 ^ 16) })

-- The handler ADC.
unfoldable pub adc : ℕ → M Field Logged
adc count = do done_flag ← read eoc; if is_set done_flag then complete count else fail
