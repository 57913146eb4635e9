-- ===== src/Rtc.antt =====
-- s07_rtc/src/bin/s07c02_rtc_across_reset.rs: a calendar clock that keeps running across resets. The
-- set-up writes the RTC only if it was never initialised; an alarm each second raises the interrupt,
-- which reads the time and the date registers and decodes their decimal digits for the log.
pub mod Setup
pub mod Digits
pub mod Protection
pub mod Basic
pub mod BasicGuard
mod Tests
use rust_on_stm32_notebook.Common.{ℕ, ◌+◌, ◌*◌, ◌/◌, ◌%◌, ◌^◌, ◌==◌, if◌then◌else◌, List, [], ◌∷◌}
use rust_on_stm32_notebook.Hardware.{Value, M, pure, write, read, poll, ◌>>=◌, ◌>>◌, is_set}

-- The fields of RCC, PWR, RTC, SYSCFG and EXTI that the program touches. A field named after a test
-- of the source answers that test: `initialised` is INITS, `may_init` INITF, `may_set_alarm` ALRAWF,
-- `synced` RSF, `alarm_on` ALRAF.
pub data Field : Type 0 where
  hseon hserdy rtcpre sw sws_is_hse : Field
  pwren dbp lseon lserdy rtcsel rtcen wpr_key : Field
  initialised init may_init prediv_s prediv_a : Field
  yt yu mt mu dt du wdu ht hu mnt mnu st su pm fmt : Field
  alraie alrae may_set_alarm msk1 msk2 msk3 msk4 : Field
  syscfgen rtsr_tr17 imr_mr17 nvic_alarm swier17 pr17 alarm_on alraf synced tr dr : Field

-- Month and weekday names of the log; `err` is "Err".
pub data Weekday : Type 0 where
  mon tue wed thu fri sat sun err : Weekday

pub data Month : Type 0 where
  jan feb mar apr may jun jul aug sep oct nov dec err : Month

unfoldable pub weekday : ℕ → Weekday
weekday n =
    if n == 1
    then Weekday.mon
    else (if n == 2
        then Weekday.tue
        else (if n == 3
            then Weekday.wed
            else (if n == 4
                then Weekday.thu
                else (if n == 5
                    then Weekday.fri
                    else (if n == 6
                        then Weekday.sat
                        else (if n == 7 then Weekday.sun else Weekday.err))))))

unfoldable pub month : ℕ → Month
month n =
    if n == 1
    then Month.jan
    else (if n == 2
        then Month.feb
        else (if n == 3
            then Month.mar
            else (if n == 4
                then Month.apr
                else (if n == 5
                    then Month.may
                    else (if n == 6
                        then Month.jun
                        else (if n == 7
                            then Month.jul
                            else (if n == 8
                                then Month.aug
                                else (if n == 9
                                    then Month.sep
                                    else (if n == 10
                                        then Month.oct
                                        else (if n == 11
                                            then Month.nov
                                            else (if n == 12
                                                then Month.dec
                                                else Month.err)))))))))))

-- The arguments of the log line, in its order.
pub record Reading : Type 0 where
  pub year_tens : ℕ
  pub year_units : ℕ
  pub month_name : Month
  pub day_tens : ℕ
  pub day_units : ℕ
  pub weekday_name : Weekday
  pub hour_tens : ℕ
  pub hour_units : ℕ
  pub minute_tens : ℕ
  pub minute_units : ℕ
  pub second_tens : ℕ
  pub second_units : ℕ

-- `x >> k & (2^w - 1)`
abbrev pub digit : ℕ → ℕ → ℕ → ℕ
digit x k w = x / 2 ^ k % 2 ^ w

unfoldable pub decode : ℕ → ℕ → Reading
decode tr_bits dr_bits = record {
  year_tens = digit dr_bits 20 4;
  year_units = digit dr_bits 16 4;
  month_name = month (digit dr_bits 12 1 * 10 + digit dr_bits 8 4);
  day_tens = digit dr_bits 4 2;
  day_units = digit dr_bits 0 4;
  weekday_name = weekday (digit dr_bits 13 3);
  hour_tens = digit tr_bits 20 2;
  hour_units = digit tr_bits 16 4;
  minute_tens = digit tr_bits 12 3;
  minute_units = digit tr_bits 8 4;
  second_tens = digit tr_bits 4 3;
  second_units = digit tr_bits 0 4;
}

-- The interrupt handler; its result is what it logs.
unfoldable pub exti17_rtc_alarm : M Field Reading
exti17_rtc_alarm = do
  write ((pr17, Value.clear) ∷ [])
  write ((alraf, Value.clear) ∷ [])
  poll synced is_set
  tr_bits ← read tr
  dr_bits ← read dr
  pure (decode tr_bits dr_bits)
