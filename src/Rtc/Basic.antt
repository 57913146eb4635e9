-- ===== src/Rtc/Basic.antt =====
-- s07_rtc/src/bin/s07c01_rtc_basic_setup.rs: the clock on the HSE, set anew at every start. Its alarm
-- handler decodes the registers as that of s07c02_rtc_across_reset.rs does.
use rust_on_stm32_notebook.Common.{[], ◌∷◌}
use rust_on_stm32_notebook.Hardware.{Value, bits, M, pure, write, read, poll, ◌>>=◌, ◌>>◌, is_set}
use rust_on_stm32_notebook.Rtc
use rust_on_stm32_notebook.Rtc.{Field, Reading, decode}
use rust_on_stm32_notebook.Rtc.Setup.{set_date, set_time}

-- `main` from the alarm's settings on: the alarm of every second, the lock, the interrupt, and the
-- system clock
unfoldable pub start_alarm : M Field (Unit {0})
start_alarm = do
  write (
      (Rtc.msk1, Value.not_mask)
      ∷ (Rtc.msk2, Value.not_mask)
      ∷ (Rtc.msk3, Value.not_mask)
      ∷ (Rtc.msk4, Value.not_mask)
      ∷ [])
  write ((Rtc.alrae, Value.enabled) ∷ (Rtc.alraie, Value.enabled) ∷ [])
  write ((Rtc.wpr_key, bits 0xFF) ∷ [])
  write ((Rtc.syscfgen, Value.enabled) ∷ [])
  write ((Rtc.rtsr_tr17, Value.enabled) ∷ [])
  write ((Rtc.imr_mr17, Value.unmasked) ∷ [])
  write ((Rtc.nvic_alarm, Value.unmasked) ∷ [])
  write ((Rtc.sw, Value.hse) ∷ [])
  poll Rtc.sws_is_hse is_set

-- from `prer.modify` on: the calendar, the lock, and the keys again for the alarm
unfoldable pub fill_calendar : M Field (Unit {0})
fill_calendar = do
  write ((Rtc.prediv_s, bits 7999) ∷ (Rtc.prediv_a, bits 124) ∷ [])
  write set_date
  write set_time
  write ((Rtc.fmt, Value.twenty_four_hour) ∷ [])
  write ((Rtc.init, Value.free_running_mode) ∷ [])
  write ((Rtc.wpr_key, bits 0xFF) ∷ [])
  write ((Rtc.wpr_key, bits 0xCA) ∷ [])
  write ((Rtc.wpr_key, bits 0x53) ∷ [])
  write ((Rtc.alraie, Value.disabled) ∷ (Rtc.alrae, Value.disabled) ∷ [])
  poll Rtc.may_set_alarm is_set
  start_alarm

-- after the HSE is ready: the clock source, the keys, and the wait for the initialisation mode
unfoldable pub start_clock : M Field (Unit {0})
start_clock = do
  write ((Rtc.pwren, Value.enabled) ∷ [])
  write ((Rtc.dbp, Value.set_bit) ∷ [])
  write ((Rtc.rtcpre, bits 8) ∷ [])
  write ((Rtc.rtcsel, Value.hse) ∷ (Rtc.rtcen, Value.enabled) ∷ [])
  write ((Rtc.wpr_key, bits 0xCA) ∷ [])
  write ((Rtc.wpr_key, bits 0x53) ∷ [])
  write ((Rtc.init, Value.init_mode) ∷ [])
  poll Rtc.may_init is_set
  fill_calendar

-- `main` up to its endless loop
unfoldable pub main : M Field (Unit {0})
main = do write ((Rtc.hseon, Value.on) ∷ []); poll Rtc.hserdy is_set; start_clock

-- The alarm handler; its result is what it logs.
unfoldable pub exti17_rtc_alarm : M Field Reading
exti17_rtc_alarm = do
  write ((Rtc.pr17, Value.clear) ∷ [])
  write ((Rtc.alraf, Value.clear) ∷ [])
  poll Rtc.synced is_set
  tr_bits ← read Rtc.tr
  dr_bits ← read Rtc.dr
  pure (decode tr_bits dr_bits)
