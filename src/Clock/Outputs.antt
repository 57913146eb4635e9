-- ===== src/Clock/Outputs.antt =====
-- The programs that put a clock on a pin: `main` is s01_rcc/src/bin/s01c101_pll_mco_0pac.rs,
-- `export_clocks` is s01_rcc/src/bin/s01c02_export_hsi_hse_clock.rs.
use rust_on_stm32_notebook.Common.{ℕ, ◌+◌, ◌%◌, ◌==◌, if◌then◌else◌, [], ◌∷◌}
use rust_on_stm32_notebook.Hardware.{Value, bits, M, pure, write, read, poll, is_set, ◌>>=◌, ◌>>◌}
use rust_on_stm32_notebook.Clock
use rust_on_stm32_notebook.Clock.{Field, count_waits, configure_pll}

-- `cur_value | (1 << 0)` on the whole register, which the access crate cannot write
abbrev pub with_bit0 : ℕ → ℕ
with_bit0 v = if v % 2 == 1 then v else v + 1

unfoldable pub start_compensation : M Field (Unit {0})
start_compensation = do
  cur_value ← read Clock.cmpcr
  write ((Clock.cmpcr, bits (with_bit0 cur_value)) ∷ [])
  poll Clock.cmp_ready is_set

-- the pin, after the switch of the clock
unfoldable pub output_pll : M Field (Unit {0})
output_pll = do
  write ((Clock.gpioaen, Value.enabled) ∷ [])
  write ((Clock.afrh_a8, Value.af0) ∷ [])
  write ((Clock.ospeedr_a8, Value.very_high_speed) ∷ [])
  write ((Clock.syscfgen, Value.enabled) ∷ [])
  start_compensation
  write ((Clock.moder_a8, Value.alternate) ∷ [])

unfoldable pub main : M Field (Unit {0})
main = do
  write ((Clock.mco1, Value.pll) ∷ [])
  configure_pll 4
  write (
      (Clock.latency, Value.ws3)
      ∷ (Clock.dcen, Value.enabled)
      ∷ (Clock.icen, Value.enabled)
      ∷ (Clock.prften, Value.enabled)
      ∷ [])
  write ((Clock.ppre1, Value.div2) ∷ [])
  write ((Clock.pwren, Value.enabled) ∷ [])
  write ((Clock.vos, bits 3) ∷ [])
  write ((Clock.hseon, Value.on) ∷ [])
  poll Clock.hserdy is_set
  write ((Clock.pllon, Value.on) ∷ [])
  poll Clock.vosrdy is_set
  poll Clock.pllrdy is_set
  write ((Clock.sw, Value.pll) ∷ [])
  poll Clock.sws_is_pll is_set
  output_pll

-- The result is the number of rounds that it logs, from 1 on.
unfoldable pub export_clocks : M Field ℕ
export_clocks = do
  write ((Clock.hseon, Value.on) ∷ [])
  wait_cnt ← count_waits Clock.hserdy 1
  write ((Clock.mco1, Value.hsi) ∷ (Clock.mco2, Value.hse) ∷ [])
  write ((Clock.gpioaen, Value.enabled) ∷ (Clock.gpiocen, Value.enabled) ∷ [])
  write ((Clock.afrh_a8, Value.af0) ∷ [])
  write ((Clock.afrh_c9, Value.af0) ∷ [])
  write ((Clock.moder_a8, Value.alternate) ∷ [])
  write ((Clock.moder_c9, Value.alternate) ∷ [])
  pure wait_cnt
