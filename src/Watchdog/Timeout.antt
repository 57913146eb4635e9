-- ===== src/Watchdog/Timeout.antt =====
-- The time limit of s16_watchdog/src/bin/s16c01_iwdg.rs.
use rust_on_stm32_notebook.Common.{ℕ, ◌≤◌, true, false, List, [], ◌∷◌, Option}
use rust_on_stm32_notebook.Watchdog
use rust_on_stm32_notebook.Watchdog.Independent
use rust_on_stm32_notebook.Watchdog.Dog.{LsiDog, lsi_passes, lsi_takes, obey, fed, and_then}

-- An LSI of f Hz makes at most 31900 cycles in the 2 / 3 s between two interrupts of SysTick (a million ticks
-- of an eighth of the 12 MHz of HSE) if f is below 47850, with its limit of 47 kHz and handlers up to 12 ms late.
abbrev pub IsTimely : List ℕ → Type 0
IsTimely [] = Unit
IsTimely (cycles ∷ next) = (cycles ≤ 31900) × IsTimely next

abbrev pub asleep : LsiDog
asleep = record { active = false; divider = 4; reload = 0xFFF; counter = 0xFFF; phase = 0 }

abbrev pub with_counter : ℕ → ℕ → LsiDog
with_counter counter phase = record {
  active = true;
  divider = 16;
  reload = 1999;
  counter = counter;
  phase = phase;
}

-- The watchdog from the reset on: `main` on the given answers, then the intervals between its feeds.
abbrev pub life : List ℕ → List ℕ → Option LsiDog
life reads intervals =
    and_then lsi_takes lsi_passes (obey lsi_takes lsi_passes (Independent.main reads).trace asleep)
      (fed lsi_takes lsi_passes Independent.sys_tick intervals 1)
