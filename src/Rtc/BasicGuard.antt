-- ===== src/Rtc/BasicGuard.antt =====
-- The write protection of the RTC in s07_rtc/src/bin/s07c01_rtc_basic_setup.rs.
use rust_on_stm32_notebook.Common.{ℕ, ◌≡◌, true, List}
use rust_on_stm32_notebook.Rtc
use rust_on_stm32_notebook.Rtc.Protection.{
  locked, unlocked, guarded, lock_at_end, Keeps, poll-Keeps, wait-Keeps,
}
use rust_on_stm32_notebook.Rtc.Basic.{start_alarm, fill_calendar, start_clock, main}

start_alarm-Keeps : (reads : List ℕ) → Keeps unlocked locked start_alarm reads
unfolding start_alarm guarded lock_at_end
start_alarm-Keeps reads =
    let p = wait-Keeps Rtc.sws_is_hse locked reads in record { safe = p.safe; leaves = p.leaves }

fill_calendar-Keeps : (reads : List ℕ) → Keeps unlocked locked fill_calendar reads
unfolding fill_calendar guarded lock_at_end
fill_calendar-Keeps reads =
    let p = poll-Keeps Rtc.may_set_alarm unlocked locked start_alarm start_alarm-Keeps reads in
    record { safe = p.safe; leaves = p.leaves }

start_clock-Keeps : (reads : List ℕ) → Keeps locked locked start_clock reads
unfolding start_clock guarded lock_at_end
start_clock-Keeps reads =
    let p = poll-Keeps Rtc.may_init unlocked locked fill_calendar fill_calendar-Keeps reads in
    record { safe = p.safe; leaves = p.leaves }

-- Whatever the hardware answers, also where a wait never ends, the program writes no protected
-- register of the RTC while it is locked, though it locks the registers between the calendar and the
-- alarm.
pub main_unlocks_first : (reads : List ℕ) → guarded locked (main reads).trace ≡ true
unfolding main guarded
main_unlocks_first reads =
    (poll-Keeps Rtc.hserdy locked locked start_clock start_clock-Keeps reads).safe
