-- ===== src/Rtc/Setup.antt =====
-- The set-up of s07_rtc/src/bin/s07c02_rtc_across_reset.rs.
use rust_on_stm32_notebook.Common.{if◌then◌else◌, List, [], ◌∷◌}
use rust_on_stm32_notebook.Hardware.{Value, bits, M, pure, write, read, poll, ◌>>=◌, ◌>>◌, is_set}
use rust_on_stm32_notebook.Rtc
use rust_on_stm32_notebook.Rtc.{Field}

unfoldable pub unlock_pwr_dbp : M Field (Unit {0})
unlock_pwr_dbp = do write ((Rtc.pwren, Value.enabled) ∷ []); write ((Rtc.dbp, Value.set_bit) ∷ [])

-- The date and the time that a fresh clock is set to: 6 April 2023, a Thursday, 16:50:25.
abbrev pub set_date : List (Field × Value)
set_date =
    (Rtc.yt, bits 2)
    ∷ (Rtc.yu, bits 3)
    ∷ (Rtc.mt, Value.clear_bit)
    ∷ (Rtc.mu, bits 4)
    ∷ (Rtc.dt, bits 0)
    ∷ (Rtc.du, bits 6)
    ∷ (Rtc.wdu, bits 4)
    ∷ []

abbrev pub set_time : List (Field × Value)
set_time =
    (Rtc.ht, bits 1)
    ∷ (Rtc.hu, bits 6)
    ∷ (Rtc.mnt, bits 5)
    ∷ (Rtc.mnu, bits 0)
    ∷ (Rtc.st, bits 2)
    ∷ (Rtc.su, bits 5)
    ∷ (Rtc.pm, Value.am)
    ∷ []

-- from `alrmr[0].modify` on: the alarm of every second, and the lock again
unfoldable pub set_alarm : M Field (Unit {0})
set_alarm = do
  write (
      (Rtc.msk1, Value.not_mask)
      ∷ (Rtc.msk2, Value.not_mask)
      ∷ (Rtc.msk3, Value.not_mask)
      ∷ (Rtc.msk4, Value.not_mask)
      ∷ [])
  write ((Rtc.alrae, Value.enabled) ∷ (Rtc.alraie, Value.enabled) ∷ [])
  write ((Rtc.wpr_key, bits 0xFF) ∷ [])

-- from `prer.modify` on: the calendar, then the alarm switched off until it may be set
unfoldable pub set_calendar : M Field (Unit {0})
set_calendar = do
  write ((Rtc.prediv_s, bits 255) ∷ (Rtc.prediv_a, bits 127) ∷ [])
  write set_date
  write set_time
  write ((Rtc.fmt, Value.twenty_four_hour) ∷ [])
  write ((Rtc.init, Value.free_running_mode) ∷ [])
  write ((Rtc.alraie, Value.disabled) ∷ (Rtc.alrae, Value.disabled) ∷ [])
  poll Rtc.may_set_alarm is_set
  set_alarm

-- after the LSE is ready: the clock source, the keys, and the wait for the initialisation mode
unfoldable pub enter_init : M Field (Unit {0})
enter_init = do
  write ((Rtc.rtcsel, Value.lse) ∷ (Rtc.rtcen, Value.enabled) ∷ [])
  write ((Rtc.wpr_key, bits 0xCA) ∷ [])
  write ((Rtc.wpr_key, bits 0x53) ∷ [])
  write ((Rtc.init, Value.init_mode) ∷ [])
  poll Rtc.may_init is_set
  set_calendar

-- the body of `if dp.RTC.isr.read().inits().is_not_initalized()`
unfoldable pub set_clock : M Field (Unit {0})
set_clock = do write ((Rtc.lseon, Value.on) ∷ []); poll Rtc.lserdy is_set; enter_init

unfoldable pub init_rtc : M Field (Unit {0})
init_rtc = do inits ← read Rtc.initialised; if is_set inits then pure tt else set_clock

unfoldable pub enable_alarm_interrupt : M Field (Unit {0})
enable_alarm_interrupt = do
  write ((Rtc.syscfgen, Value.enabled) ∷ [])
  write ((Rtc.rtsr_tr17, Value.enabled) ∷ [])
  write ((Rtc.imr_mr17, Value.unmasked) ∷ [])
  write ((Rtc.nvic_alarm, Value.unmasked) ∷ [])
  alarm ← read Rtc.alarm_on
  if is_set alarm then write ((Rtc.swier17, Value.pend) ∷ []) else pure tt

-- `main` up to its endless loop
unfoldable pub main : M Field (Unit {0})
main = do unlock_pwr_dbp; init_rtc; enable_alarm_interrupt
