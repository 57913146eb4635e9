-- ===== src/Dac.antt =====
-- s20_dac/src/bin/s20c01_2sin_wave.rs: the controller writes the samples of a cosine to the DAC, one
-- after another, without end. The loop is modelled by its rounds, with `index` as its state.
pub mod Wave
pub mod Setup
mod Tests
use rust_on_stm32_notebook.Common.{
  ℕ, zero, suc, ◌+◌, ◌-◌, ltb, if◌then◌else◌, List, [], ◌∷◌, length, get_elem?,
}
use rust_on_stm32_notebook.Hardware.{bits, M, pure, write, unwrap, ◌>>=◌, ◌>>◌}

-- The fields of RCC, PWR, FLASH, GPIOA and DAC that the program touches.
pub data Field : Type 0 where
  hseon hserdy pllsrc pllm plln pllp pwren vos pllon vosrdy pllrdy : Field
  latency dcen icen prften ppre1 sw sws_is_pll gpioaen moder4 dacen en1 dacc1dhr : Field

-- wave_data/mod.rs
abbrev pub cos_wave_100 : List ℕ
cos_wave_100 =
    4095 ∷ 4090 ∷ 4078 ∷ 4058 ∷ 4030 ∷ 3994 ∷ 3951 ∷ 3900 ∷ 3841 ∷ 3776 ∷ 3703 ∷ 3625 ∷ 3540 ∷ 3449
    ∷ 3352 ∷ 3250 ∷ 3144 ∷ 3033 ∷ 2919 ∷ 2801 ∷ 2680 ∷ 2556 ∷ 2431 ∷ 2304 ∷ 2176 ∷ 2047 ∷ 1918
    ∷ 1790 ∷ 1663 ∷ 1538 ∷ 1414 ∷ 1293 ∷ 1175 ∷ 1061 ∷ 950 ∷ 844 ∷ 742 ∷ 645 ∷ 554 ∷ 469 ∷ 391 ∷ 318
    ∷ 253 ∷ 194 ∷ 143 ∷ 100 ∷ 64 ∷ 36 ∷ 16 ∷ 4 ∷ 0 ∷ 4 ∷ 16 ∷ 36 ∷ 64 ∷ 100 ∷ 143 ∷ 194 ∷ 253 ∷ 318
    ∷ 391 ∷ 469 ∷ 554 ∷ 645 ∷ 742 ∷ 844 ∷ 950 ∷ 1061 ∷ 1175 ∷ 1293 ∷ 1414 ∷ 1538 ∷ 1663 ∷ 1790
    ∷ 1918 ∷ 2047 ∷ 2176 ∷ 2304 ∷ 2431 ∷ 2556 ∷ 2680 ∷ 2801 ∷ 2919 ∷ 3033 ∷ 3144 ∷ 3250 ∷ 3352
    ∷ 3449 ∷ 3540 ∷ 3625 ∷ 3703 ∷ 3776 ∷ 3841 ∷ 3900 ∷ 3951 ∷ 3994 ∷ 4030 ∷ 4058 ∷ 4078 ∷ 4090 ∷ []

abbrev pub step : ℕ
step = 1

-- one round of the loop
unfoldable pub next_sample : ℕ → M Field ℕ
next_sample index = do
  sample_value ← unwrap (get_elem? cos_wave_100 index)
  write ((dacc1dhr, bits sample_value) ∷ [])
  pure (
      if ltb (index + step) (length cos_wave_100)
      then index + step
      else length cos_wave_100 - index)

-- the loop for some rounds
unfoldable pub play : ℕ → ℕ → M Field ℕ
play zero index = pure index
play (suc n) index = next_sample index >>= play n
