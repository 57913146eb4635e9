-- ===== src/Breath.antt =====
-- s06_tim/src/bin/s06c03_led_breath.rs: a breathing LED. TIM2 makes a PWM signal whose duty is its
-- compare register CCR1; each update of TIM3 raises the interrupt that moves CCR1 by a step and turns
-- round at the ends. The static CUR_DIR is the handler's argument and result; CCR1 is read back from
-- the hardware.
pub mod Cycle
pub mod Setup
mod Tests
use rust_on_stm32_notebook.Common.{ℕ, ◌+◌, ◌-◌, ◌%◌, List, [], ◌∷◌, leb, if◌then◌else◌}
use rust_on_stm32_notebook.Hardware.{Value, bits, M, pure, write, read, ◌>>=◌, ◌>>◌}

-- The fields of RCC, DBGMCU, GPIOA, TIM2 and TIM3 that the program touches.
pub data Field : Type 0 where
  hseon hserdy sw sws_is_hse dbg_tim2_stop dbg_tim3_stop gpioaen afrl5 moder5 : Field
  tim2en tim2_arr tim2_arpe tim2_dir tim2_psc tim2_ccmr1 cc1s oc1m oc1pe ccr1 cc1e tim2_cen : Field
  tim3en tim3_psc tim3_arr tim3_arpe urs nvic_tim3 tim3_uie tim3_cen tim3_uif : Field

pub data Direction : Type 0 where
  lighting dimming : Direction

abbrev pub max_arr_value : ℕ
max_arr_value = 999

abbrev pub step : ℕ
step = 50

-- `match last_dir { .. }`: the direction from now on, and the value for CCR1. Both sums and
-- differences stand under the tests that keep them in range of u16.
unfoldable pub turn : Direction → ℕ → Direction × ℕ
turn lighting last_value =
    if leb last_value (max_arr_value - step)
    then (lighting, last_value + step)
    else (dimming, max_arr_value - step)
turn dimming last_value =
    if leb step last_value then (dimming, last_value - step) else (lighting, step)

-- The interrupt handler.
unfoldable pub tim3 : Direction → M Field Direction
tim3 last_dir = do
  write ((tim3_uif, Value.clear) ∷ [])
  ccr ← read ccr1
  write ((ccr1, bits (turn last_dir (ccr % 65536)).1) ∷ [])
  pure (turn last_dir (ccr % 65536)).0
