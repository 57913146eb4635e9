-- ===== src/Rtc/Tests.antt =====
-- The clock of s07_rtc/src/bin/s07c02_rtc_across_reset.rs on concrete registers.
use rust_on_stm32_notebook.Common.{◌≡◌, refl, arith, [], ◌∷◌, not, true}
use rust_on_stm32_notebook.Hardware.{done, is_set}
use rust_on_stm32_notebook.Hardware.Laws.{hit, miss}
use rust_on_stm32_notebook.Rtc.{Reading, exti17_rtc_alarm}
use rust_on_stm32_notebook.Rtc.Setup.{init_rtc}
use rust_on_stm32_notebook.Rtc.Digits.{
  Moment, Tells, Spare, time_bits, date_bits, alarm_logs_moment,
}
use rust_on_stm32_notebook.Rtc.Protection.{
  locked, guarded, lock_at_end, changes_clock, init_rtc_unlocks_first, init_rtc_lem,
}
use rust_on_stm32_notebook.Rtc.Basic
use rust_on_stm32_notebook.Rtc.BasicGuard.{main_unlocks_first}

-- 31 December 2099, a Thursday, one second to midnight.
abbrev last_second : Moment
last_second = record {
  year = 99;
  mon = 12;
  day = 31;
  wday = 4;
  hour = 23;
  minute = 59;
  second = 59;
}

-- Every bit that holds no digit reads 1.
abbrev all_ones : Spare
all_ones = record { tr_7 = 1; tr_15 = 1; tr_22 = 1023; dr_6 = 3; dr_24 = 255 }

alarm_logs_moment_example :
    (r : Reading) × ((exti17_rtc_alarm
        (0 ∷ 1 ∷ time_bits all_ones last_second ∷ date_bits all_ones last_second ∷ [])).outcome
      ≡ done r)
    × Tells r last_second
alarm_logs_moment_example =
    alarm_logs_moment all_ones last_second (omega arith) (omega arith) (miss refl (hit refl))

init_rtc_unlocks_first_example : guarded locked (init_rtc (0 ∷ 0 ∷ 1 ∷ 1 ∷ [])).trace ≡ true
init_rtc_unlocks_first_example = init_rtc_unlocks_first (0 ∷ 0 ∷ 1 ∷ 1 ∷ [])

cold_start_trace :
    let r = init_rtc (0 ∷ 0 ∷ 1 ∷ 1 ∷ 1 ∷ []) in
    (r.outcome ≡ done tt)
    × (lock_at_end locked r.trace ≡ locked)
    × (changes_clock r.trace ≡ not (is_set 0))
cold_start_trace = init_rtc_lem 0 (miss refl (hit refl)) (hit refl) (hit refl)

basic_unlocks_first : guarded locked (Basic.main (1 ∷ 1 ∷ 0 ∷ 1 ∷ 1 ∷ [])).trace ≡ true
basic_unlocks_first = main_unlocks_first (1 ∷ 1 ∷ 0 ∷ 1 ∷ 1 ∷ [])
