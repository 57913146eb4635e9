-- ===== src/Rtc/Digits.antt =====
-- The registers RTC_TR and RTC_DR as the alarm handler of s07_rtc/src/bin/s07c02_rtc_across_reset.rs
-- reads them: what it logs for every moment that the clock can hold.
use rust_on_stm32_notebook.Common.{
  ℕ, ◌+◌, ◌*◌, ◌/◌, ◌%◌, ◌^◌, ◌≤◌, ◌<◌, ◌≡◌, ◌-◌, refl, arith, List, [], ◌∷◌, get_elem?, some,
}
use rust_on_stm32_notebook.Hardware.{done, is_set}
use rust_on_stm32_notebook.Hardware.Laws.{Polled, poll-Polled}
use rust_on_stm32_notebook.Rtc.{
  Reading, Month, Weekday, weekday, month, digit, decode, synced, exti17_rtc_alarm,
}

-- A moment of the calendar: the year of the century, the month and the day from 1, the weekday from
-- Monday, 1, and the time of day.
pub record Moment : Type 0 where
  pub year : ℕ
  pub mon : ℕ
  pub day : ℕ
  pub wday : ℕ
  pub hour : ℕ
  pub minute : ℕ
  pub second : ℕ

pub record IsMoment (m : Moment) : Type 0 where
  pub year_lt : m.year < 100
  pub mon_ge : 1 ≤ m.mon
  pub mon_le : m.mon ≤ 12
  pub day_lt : m.day < 32
  pub wday_ge : 1 ≤ m.wday
  pub wday_le : m.wday ≤ 7
  pub hour_lt : m.hour < 24
  pub minute_lt : m.minute < 60
  pub second_lt : m.second < 60

-- What stands in the bits of the two registers that hold no digit: bits 7, 15 and from 22 of RTC_TR, bits 6
-- and 7 and from 24 of RTC_DR.
pub record Spare : Type 0 where
  pub tr_7 : ℕ
  pub tr_15 : ℕ
  pub tr_22 : ℕ
  pub dr_6 : ℕ
  pub dr_24 : ℕ

pub record IsSpare (b : Spare) : Type 0 where
  pub tr_7_lt : b.tr_7 < 2
  pub tr_15_lt : b.tr_15 < 2
  pub dr_6_lt : b.dr_6 < 4

-- The documented layout of the two registers: decimal digits and the spare bits.
abbrev pub time_bits : Spare → Moment → ℕ
time_bits b m =
    m.second % 10
    + m.second / 10 * 2 ^ 4
    + b.tr_7 * 2 ^ 7
    + m.minute % 10 * 2 ^ 8
    + m.minute / 10 * 2 ^ 12
    + b.tr_15 * 2 ^ 15
    + m.hour % 10 * 2 ^ 16
    + m.hour / 10 * 2 ^ 20
    + b.tr_22 * 2 ^ 22

abbrev pub date_bits : Spare → Moment → ℕ
date_bits b m =
    m.day % 10
    + m.day / 10 * 2 ^ 4
    + b.dr_6 * 2 ^ 6
    + m.mon % 10 * 2 ^ 8
    + m.mon / 10 * 2 ^ 12
    + m.wday * 2 ^ 13
    + m.year % 10 * 2 ^ 16
    + m.year / 10 * 2 ^ 20
    + b.dr_24 * 2 ^ 24

module _ (b : Spare) (s : IsSpare b) (m : Moment) (v : IsMoment m) where
  time_digits :
      (digit (time_bits b m) 20 2 ≡ m.hour / 10)
      × (digit (time_bits b m) 16 4 ≡ m.hour % 10)
      × (digit (time_bits b m) 12 3 ≡ m.minute / 10)
      × (digit (time_bits b m) 8 4 ≡ m.minute % 10)
      × (digit (time_bits b m) 4 3 ≡ m.second / 10)
      × (digit (time_bits b m) 0 4 ≡ m.second % 10)
  time_digits = omega arith

  date_digits :
      (digit (date_bits b m) 20 4 ≡ m.year / 10)
      × (digit (date_bits b m) 16 4 ≡ m.year % 10)
      × (digit (date_bits b m) 12 1 * 10 + digit (date_bits b m) 8 4 ≡ m.mon)
      × (digit (date_bits b m) 4 2 ≡ m.day / 10)
      × (digit (date_bits b m) 0 4 ≡ m.day % 10)
      × (digit (date_bits b m) 13 3 ≡ m.wday)
  date_digits = omega arith

-- The calendar's names in order.
abbrev pub months : List Month
months =
    Month.jan ∷ Month.feb ∷ Month.mar ∷ Month.apr ∷ Month.may ∷ Month.jun ∷ Month.jul ∷ Month.aug
    ∷ Month.sep ∷ Month.oct ∷ Month.nov ∷ Month.dec ∷ []

abbrev pub weekdays : List Weekday
weekdays =
    Weekday.mon ∷ Weekday.tue ∷ Weekday.wed ∷ Weekday.thu ∷ Weekday.fri ∷ Weekday.sat ∷ Weekday.sun
    ∷ []

-- The log line tells the moment: each number in two decimal digits, month and weekday by name.
pub record Tells (r : Reading) (m : Moment) : Type 0 where
  pub year : r.year_tens * 10 + r.year_units ≡ m.year
  pub day : r.day_tens * 10 + r.day_units ≡ m.day
  pub hour : r.hour_tens * 10 + r.hour_units ≡ m.hour
  pub minute : r.minute_tens * 10 + r.minute_units ≡ m.minute
  pub second : r.second_tens * 10 + r.second_units ≡ m.second
  pub units :
      (r.year_units < 10)
      × (r.day_units < 10)
      × (r.hour_units < 10)
      × (r.minute_units < 10)
      × (r.second_units < 10)
  pub month_name : get_elem? months (m.mon - 1) ≡ some r.month_name
  pub weekday_name : get_elem? weekdays (m.wday - 1) ≡ some r.weekday_name

month_in_order : (n : ℕ) → 1 ≤ n → n ≤ 12 → get_elem? months (n - 1) ≡ some (month n)
unfolding month
month_in_order n a b = ground arith

weekday_in_order : (n : ℕ) → 1 ≤ n → n ≤ 7 → get_elem? weekdays (n - 1) ≡ some (weekday n)
unfolding weekday
weekday_in_order n a b = ground arith

decode-Tells :
    (b : Spare) (m : Moment)
    → IsSpare b
    → IsMoment m
    → Tells (decode (time_bits b m) (date_bits b m)) m
unfolding decode
decode-Tells b m s v =
    let t = time_digits b s m v in
    let d = date_digits b s m v in
    record {
      year = omega arith;
      day = omega arith;
      hour = omega arith;
      minute = omega arith;
      second = omega arith;
      units = omega arith;
      month_name = rw d.2 (month_in_order m.mon v.mon_ge v.mon_le);
      weekday_name = rw d.5 (weekday_in_order m.wday v.wday_ge v.wday_le);
    }

-- For every moment, whatever stands in the bits of the two registers that hold no digit, and however long the registers take to be
-- in step, the handler ends and logs exactly that moment.
pub alarm_logs_moment :
    (b : Spare) (m : Moment) {reads rest : List ℕ}
    → IsSpare b
    → IsMoment m
    → Polled is_set reads (time_bits b m ∷ date_bits b m ∷ rest)
    → (r : Reading) × ((exti17_rtc_alarm reads).outcome ≡ done r) × Tells r m
unfolding exti17_rtc_alarm
alarm_logs_moment b m s v p =
    let (ends, left) = poll-Polled synced p in
    (decode (time_bits b m) (date_bits b m), rw (ends, left) refl, decode-Tells b m s v)
