-- ===== src/Watchdog/Tests.antt =====
-- The component's theorems at concrete inputs.
use rust_on_stm32_notebook.Common.{ℕ, ◌≡◌, refl, List, [], ◌∷◌, ◌+◌, ◌-◌, none, some, arith}
use rust_on_stm32_notebook.Watchdog.{sys_tick, next_cnt}
use rust_on_stm32_notebook.Watchdog.Dog.{window_takes, window_passes, fed}
use rust_on_stm32_notebook.Watchdog.Window.{period, just_fed, never_bites}
use rust_on_stm32_notebook.Watchdog.Window
use rust_on_stm32_notebook.Watchdog.Timeout
use rust_on_stm32_notebook.Watchdog.Independent

-- three rounds, one late and the next on time again
never_bites_example :
    (p : ℕ) × (Window.life 100 (period ∷ (period + 1000) ∷ (period - 1000) ∷ [])
      ≡ some (just_fed p))
never_bites_example =
    never_bites 100 (period ∷ (period + 1000) ∷ (period - 1000) ∷ []) (omega arith)
      (omega arith, (omega arith, (omega arith, (omega arith, (omega arith, (omega arith, tt))))))
      (omega arith)

-- a feed that comes twice as early is outside the window
early_feed_resets :
    fed window_takes window_passes sys_tick ((period - 700000) ∷ []) 1 (just_fed 0) ≡ none
unfolding sys_tick next_cnt
early_feed_resets = refl

-- HSE is ready at the second read, LSI at the third
abbrev slow_clocks : List ℕ
slow_clocks = 0 ∷ 1 ∷ 1 ∷ 0 ∷ 0 ∷ 1 ∷ []
