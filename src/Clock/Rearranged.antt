-- ===== src/Clock/Rearranged.antt =====
-- s01_rcc/src/bin/s01c100_pll_1rearranged.rs: the waits of s01c100_pll_0pac.rs overlap with the writes.
use rust_on_stm32_notebook.Common.{[], ◌∷◌}
use rust_on_stm32_notebook.Hardware.{Value, bits, M, write, ◌>>=◌, ◌>>◌}
use rust_on_stm32_notebook.Clock
use rust_on_stm32_notebook.Clock.{Field, WaitCounts, count_waits, sum_waits, configure_pll}

unfoldable pub main : M Field WaitCounts
main = do
  write ((Clock.hseon, Value.on) ∷ [])
  configure_pll 6
  write ((Clock.pwren, Value.enabled) ∷ [])
  write ((Clock.vos, bits 1) ∷ [])
  hse_count ← count_waits Clock.hserdy 0
  write ((Clock.pllon, Value.on) ∷ [])
  write (
      (Clock.latency, Value.ws3)
      ∷ (Clock.dcen, Value.enabled)
      ∷ (Clock.icen, Value.enabled)
      ∷ (Clock.prften, Value.enabled)
      ∷ [])
  write ((Clock.ppre1, Value.div2) ∷ [])
  vos_count ← count_waits Clock.vosrdy 0
  pll_count ← count_waits Clock.pllrdy 0
  write ((Clock.sw, Value.pll) ∷ [])
  sysclk_count ← count_waits Clock.sws_is_pll 0
  sum_waits hse_count vos_count pll_count sysclk_count
