-- ===== src/Clock.antt =====
-- The programs of s01_rcc/src/bin that bring up the clocks: s01c100_pll_0pac.rs is modelled here, Rearranged is
-- s01c100_pll_1rearranged.rs, Outputs is s01c101_pll_mco_0pac.rs and s01c02_export_hsi_hse_clock.rs.
-- A program is its `main` with the peripherals taken, up to the endless loop; what it logs is its
-- result.
pub mod Rearranged
pub mod Outputs
pub mod Raw
pub mod Source
pub mod Guard
pub mod Waits
mod Tests
use rust_on_stm32_notebook.Common.{ℕ, ◌+◌, ◌^◌, if◌then◌else◌, List, [], ◌∷◌, ltb}
use rust_on_stm32_notebook.Hardware.{
  Value, bits, sample, M, done, panic, waiting, pure, fail, write, is_set, poll_count, ◌>>=◌, ◌>>◌,
}

pub data Field : Type 0 where
  hseon hserdy pllsrc pllm plln pllp pwren vos pllon vosrdy pllrdy : Field
  latency dcen icen prften ppre1 sw sws_is_pll mco1 mco2 : Field
  gpioaen gpiocen afrh_a8 afrh_c9 ospeedr_a8 moder_a8 moder_c9 syscfgen cmpcr cmp_ready : Field

-- `while !ready { count += 1 }`
abbrev pub count_waits : Field → ℕ → M Field ℕ
count_waits f count = poll_count f is_set count

-- The four counters, and their sum.
pub record WaitCounts : Type 0 where
  pub hse : ℕ
  pub vos : ℕ
  pub pll : ℕ
  pub sysclk : ℕ
  pub total : ℕ

-- a sum of u32
abbrev pub add32 : ℕ → ℕ → M Field ℕ
add32 a b = if ltb (a + b) (2 ^ 32) then pure (a + b) else fail

-- the sum at the end, and the log line
unfoldable pub sum_waits : ℕ → ℕ → ℕ → ℕ → M Field WaitCounts
sum_waits hse_count vos_count pll_count sysclk_count = do
  a ← add32 hse_count vos_count
  b ← add32 a pll_count
  total ← add32 b sysclk_count
  pure (record {
    hse = hse_count;
    vos = vos_count;
    pll = pll_count;
    sysclk = sysclk_count;
    total = total;
  })

unfoldable pub configure_pll : ℕ → M Field (Unit {0})
configure_pll m =
    write ((pllsrc, Value.hse) ∷ (pllm, bits m) ∷ (plln, bits 100) ∷ (pllp, Value.div2) ∷ [])

unfoldable pub main : M Field WaitCounts
main = do
  write ((hseon, Value.on) ∷ [])
  hse_count ← count_waits hserdy 0
  configure_pll 6
  write ((pwren, Value.enabled) ∷ [])
  write ((vos, bits 3) ∷ [])
  write ((pllon, Value.on) ∷ [])
  vos_count ← count_waits vosrdy 0
  pll_count ← count_waits pllrdy 0
  write ((latency, Value.ws3) ∷ [])
  write ((dcen, Value.enabled) ∷ (icen, Value.enabled) ∷ (prften, Value.enabled) ∷ [])
  write ((ppre1, Value.div2) ∷ [])
  write ((sw, Value.pll) ∷ [])
  sysclk_count ← count_waits sws_is_pll 0
  sum_waits hse_count vos_count pll_count sysclk_count
