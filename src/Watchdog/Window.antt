-- ===== src/Watchdog/Window.antt =====
-- The window of s16_watchdog/src/bin/s16c02_wwdg.rs.
use rust_on_stm32_notebook.Common.{
  ℕ, ◌+◌, ◌-◌, ◌*◌, ◌/◌, ◌%◌, ◌^◌, ◌<◌, ◌≤◌, ◌≡◌, refl, ◌∙◌, true, false, List, [], ◌∷◌, Option,
  some, ltb, length, arith,
}
use rust_on_stm32_notebook.Watchdog.{systick_feed, main, next_cnt, sys_tick}
use rust_on_stm32_notebook.Watchdog.Dog.{
  WindowDog, window_passes, window_takes, obey, fed, and_then,
}

-- The cycles of the bus clock between two interrupts of SysTick, which counts every eighth of them.
abbrev pub period : ℕ
period = (systick_feed + 1) * 8

-- Handlers may be late: an interval differs from the period by at most 200000 cycles.
abbrev pub IsTimely : List ℕ → Type 0
IsTimely [] = Unit
IsTimely (cycles ∷ next) = (period ≤ cycles + 200000) × ((cycles ≤ period + 200000) × IsTimely next)

-- The dog before the program, with its prescaler at any point.
abbrev pub asleep : ℕ → WindowDog
asleep phase = record { active = false; prescale = 0; window = 0x7F; counter = 0x7F; phase = phase }

abbrev pub just_fed : ℕ → WindowDog
just_fed phase = record {
  active = true;
  prescale = 3;
  window = 0x50;
  counter = 0x70;
  phase = phase;
}

-- The whole life of the dog: what `main` writes, then the interrupts.
abbrev pub life : ℕ → List ℕ → Option WindowDog
life phase intervals =
    and_then window_takes window_passes
      (obey window_takes window_passes (main []).trace (asleep phase))
      (fed window_takes window_passes sys_tick intervals 1)

above_false : (a b : ℕ) → b ≤ a → ltb a b ≡ false
above_false a b h = ground arith

below_true : (a b : ℕ) → a < b → ltb a b ≡ true
below_true a b h = ground arith

-- a round of the handler
round_feeds :
    (phase cycles cnt : ℕ) (next : List ℕ)
    → phase < 32768
    → period ≤ cycles + 200000
    → cycles ≤ period + 200000
    → cnt + 1 < 2 ^ 32
    → fed window_takes window_passes sys_tick (cycles ∷ next) cnt (just_fed phase)
      ≡ fed window_takes window_passes sys_tick next (cnt + 1) (just_fed ((phase + cycles) % 32768))
unfolding sys_tick next_cnt
round_feeds phase cycles cnt next h low high c =
    let steps = (phase + cycles) / 32768 in
    rw
      (
        above_false 0x70 (steps + 0x40) (omega arith),
        above_false 0x50 (0x70 - steps) (omega arith),
        below_true (cnt + 1) (2 ^ 32) c,
      )
      refl

rounds_feed :
    (intervals : List ℕ) (phase cnt : ℕ)
    → IsTimely intervals
    → phase < 32768
    → cnt + length intervals < 2 ^ 32
    → (p : ℕ) × (fed window_takes window_passes sys_tick intervals cnt (just_fed phase)
        ≡ some (just_fed p))
rounds_feed [] phase cnt t h c = (phase, refl)
rounds_feed (cycles ∷ next) phase cnt (low, (high, t)) h c =
    let (p, e) =
      rounds_feed next ((phase + cycles) % 32768) (cnt + 1) t (omega arith) (omega arith) in
    (p, round_feeds phase cycles cnt next h low high (omega arith) ∙ e)

-- If the bus clock runs eight times as fast as SysTick and each interval between two feeds differs from the
-- period by at most 200000 cycles, the watchdog that `main` sets up never resets the controller, through
-- fewer than 2 ^ 32 - 1 interrupts and whatever the state of its prescaler: each feed comes inside the
-- window, and leaves the counter at its reload value.
pub never_bites :
    (phase : ℕ) (intervals : List ℕ)
    → phase < 32768
    → IsTimely intervals
    → length intervals + 1 < 2 ^ 32
    → (p : ℕ) × (life phase intervals ≡ some (just_fed p))
unfolding main
never_bites phase intervals h t c = rounds_feed intervals phase 1 t h (omega arith)
