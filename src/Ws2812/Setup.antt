-- ===== src/Ws2812/Setup.antt =====
-- The set-up of s06_tim/src/bin/s06c100_ws2812_tim_dma.rs.
use rust_on_stm32_notebook.Common.{ℕ, ◌-◌, ◌%◌, ◌^◌, not, if◌then◌else◌, [], ◌∷◌, length}
use rust_on_stm32_notebook.Hardware.{Value, bits, M, pure, write, read, poll, ◌>>=◌, ◌>>◌, is_set}
use rust_on_stm32_notebook.Ws2812
use rust_on_stm32_notebook.Ws2812.{Field}
use rust_on_stm32_notebook.Ws2812.Colors.{turn_off}

unfoldable pub setup_rcc : M Field (Unit {0})
setup_rcc = do
  write ((Ws2812.hseon, Value.on) ∷ [])
  poll Ws2812.hserdy is_set
  write (
      (Ws2812.pllsrc, Value.hse)
      ∷ (Ws2812.pllm, bits 6)
      ∷ (Ws2812.plln, bits 80)
      ∷ (Ws2812.pllp, Value.div8)
      ∷ [])
  write ((Ws2812.pllon, Value.on) ∷ [])
  poll Ws2812.pllrdy is_set
  write ((Ws2812.sw, Value.pll) ∷ [])
  poll Ws2812.sws_is_pll is_set

-- The last write stands under `#[cfg(debug_assertions)]`.
unfoldable pub setup_low_power : M Field (Unit {0})
setup_low_power = do
  write ((Ws2812.sleep_on_exit, Value.set_bit) ∷ [])
  write ((Ws2812.dbgmcu_cr, Value.reset_value) ∷ [])
  write ((Ws2812.dbg_sleep, Value.set_bit) ∷ [])

unfoldable pub setup_gpio : M Field (Unit {0})
setup_gpio = do
  write ((Ws2812.gpioben, Value.enabled) ∷ [])
  write ((Ws2812.ospeedr4, Value.medium_speed) ∷ [])
  write ((Ws2812.pupdr4, Value.pull_down) ∷ [])
  write ((Ws2812.afrl4, Value.af2) ∷ [])
  write ((Ws2812.moder4, Value.alternate) ∷ [])

unfoldable pub disable_stream : M Field (Unit {0})
disable_stream = do
  write ((Ws2812.stream_en, Value.disabled) ∷ [])
  poll Ws2812.stream_en (λ v. not (is_set v))

-- `if cr.en() { disable; while cr.en() {} }`: the stream is configured only while it is off.
unfoldable pub stop_stream : M Field (Unit {0})
stop_stream = do en ← read Ws2812.stream_en; if is_set en then disable_stream else pure tt

-- `ccr1` is the address of TIM3_CCR1, `frame` that of the first table.
unfoldable pub setup_dma : ℕ → ℕ → M Field (Unit {0})
setup_dma ccr1 frame = do
  write ((Ws2812.dma1en, Value.enabled) ∷ [])
  stop_stream
  write (
      (Ws2812.chsel, bits 5)
      ∷ (Ws2812.mburst, Value.incr8)
      ∷ (Ws2812.pl, Value.priority_high)
      ∷ (Ws2812.msize, Value.bits16)
      ∷ (Ws2812.psize, Value.bits16)
      ∷ (Ws2812.minc, Value.incremented)
      ∷ (Ws2812.dir, Value.memory_to_peripheral)
      ∷ (Ws2812.tcie, Value.enabled)
      ∷ (Ws2812.teie, Value.enabled)
      ∷ [])
  write ((Ws2812.ndt, bits (length turn_off % 2 ^ 16)) ∷ [])
  write ((Ws2812.pa, bits ccr1) ∷ [])
  write ((Ws2812.m0a, bits frame) ∷ [])
  write (
      (Ws2812.dmdis, Value.disabled) ∷ (Ws2812.feie, Value.enabled) ∷ (Ws2812.fth, Value.full) ∷ [])
  write ((Ws2812.chtif4, Value.clear) ∷ (Ws2812.ctcif4, Value.clear) ∷ [])
  write ((Ws2812.nvic_dma1_stream4, Value.unmasked) ∷ [])

unfoldable pub setup_pwm : M Field (Unit {0})
setup_pwm = do
  write ((Ws2812.tim3en, Value.enabled) ∷ [])
  write ((Ws2812.tim3_arr, bits (25 - 1)) ∷ [])
  write ((Ws2812.tim3_dir, Value.up) ∷ [])
  write ((Ws2812.ccds, Value.on_update) ∷ [])
  write ((Ws2812.cc1de, Value.enabled) ∷ [])
  write (
      (Ws2812.cc1s, Value.output)
      ∷ (Ws2812.oc1m, Value.pwm_mode1)
      ∷ (Ws2812.oc1pe, Value.enabled)
      ∷ [])
  write ((Ws2812.cc1e, Value.set_bit) ∷ [])

unfoldable pub setup_delay : M Field (Unit {0})
setup_delay = do
  write ((Ws2812.tim2en, Value.enabled) ∷ [])
  write ((Ws2812.tim2_psc, bits (20_000 - 1)) ∷ [])
  write ((Ws2812.tim2_arr, bits (500 - 1)) ∷ [])
  write ((Ws2812.tim2_uie, Value.enabled) ∷ [])
  write ((Ws2812.nvic_tim2, Value.unmasked) ∷ [])

unfoldable pub enable : M Field (Unit {0})
enable = do
  write ((Ws2812.stream_en, Value.enabled) ∷ [])
  write ((Ws2812.tim2_cen, Value.enabled) ∷ [])
  write ((Ws2812.tim3_cen, Value.enabled) ∷ [])

-- `main` up to its sleep
unfoldable pub main : ℕ → ℕ → M Field (Unit {0})
main ccr1 frame = do
  setup_rcc
  setup_low_power
  setup_gpio
  setup_dma ccr1 frame
  setup_pwm
  setup_delay
  enable
