-- ===== src/Lcd/Nibble.antt =====
-- The 4-pin driver of s11_lcd1602/src/bin/utils/mode_4pin as the display sees it.
use rust_on_stm32_notebook.Common.{
  ℕ, zero, suc, ◌+◌, ◌*◌, ◌/◌, ◌%◌, ◌^◌, ◌≤◌, ◌<◌, ◌==◌, ◌≡◌, refl, ap, Bool, true, false, List, [],
  ◌∷◌, arith, all_below, all_below_sound, ==→eq, length, ltb,
}
use rust_on_stm32_notebook.Hardware.{panic, pure}
use rust_on_stm32_notebook.Lcd.{select}
use rust_on_stm32_notebook.Lcd.Panel.{
  Pins, Controlled, Controlled-stays, weight, nibble, latches, conflict_up, update,
}
use rust_on_stm32_notebook.Lcd.Byte.{line}
use rust_on_stm32_notebook.Lcd.Driver.{Width, Does, >>=-Does}
use rust_on_stm32_notebook.Lcd.Idle.{Idles, Round, idle_loop-Does}
use rust_on_stm32_notebook.Lcd.Pin4.{
  put_4bit, send_4bit, send_8bit, nibble_sample, join, read_busy_flag, wait_for_idle,
  wait_and_send_8bit,
}

-- Between two transfers the controller holds E low, and drives PB4 to PB7.
pub record Ready (p : Pins) : Type 0 where
  pub control : Controlled p
  pub e_low : p.e ≡ false
  pub d4 : p.drives 4 ≡ true
  pub d5 : p.drives 5 ≡ true
  pub d6 : p.drives 6 ≡ true
  pub d7 : p.drives 7 ≡ true

pub Ready-calm : {p : Pins} → Ready p → conflict_up p ≡ false
Ready-calm r = rw (r.control.a2, r.e_low, r.control.kept) refl

abbrev pub width : Width
width = record { bus = nibble; clash = conflict_up; Ready = Ready; calm = Ready-calm }

abbrev bit_at : ℕ → ℕ → Bool
bit_at x k = x / 2 ^ k % 2 == 1

abbrev from_bits : ℕ → ℕ
from_bits x =
    weight 8 (bit_at x 3) + weight 4 (bit_at x 2) + weight 2 (bit_at x 1) + weight 1 (bit_at x 0)

from_bits_table : all_below 16 (λ x. from_bits x == x) ≡ true
unfolding all_below
from_bits_table = refl

from_bits_lem : (x : ℕ) → x < 16 → from_bits x ≡ x
from_bits_lem x h = ==→eq _ _ (all_below_sound 16 (λ y. from_bits y == y) x from_bits_table h)

-- The level of the bus once the four bits are written.
abbrev pub levels : (ℕ → Bool) → ℕ → ℕ → Bool
levels f x =
    update (update (update (update f 7 (bit_at x 3)) 6 (bit_at x 2)) 5 (bit_at x 1)) 4 (bit_at x 0)

nibble-levels :
    (p : Pins) (rs l : Bool) (x : ℕ)
    → Ready p
    → x < 16
    → nibble (record p { rs = rs; rw = false; e = true; level = levels p.level x; lost = l }) ≡ x
unfolding nibble
nibble-levels p rs l x r h = rw (r.d4, r.d5, r.d6, r.d7) (from_bits_lem x h)

put_4bit-takes :
    (p : Pins) (rs x : ℕ)
    → Ready p
    → rs < 2
    → x < 16
    → latches nibble p (put_4bit rs 0 x []).trace ≡ record { rs = line rs; bus = x } ∷ []
unfolding put_4bit select
put_4bit-takes p zero x r hr h =
    rw (r.control.a0, r.control.a1, r.control.a2, r.e_low)
      (ap (λ b. record { rs = false; bus = b } ∷ []) (nibble-levels p false _ x r h))
put_4bit-takes p (suc zero) x r hr h =
    rw (r.control.a0, r.control.a1, r.control.a2, r.e_low)
      (ap (λ b. record { rs = true; bus = b } ∷ []) (nibble-levels p true _ x r h))
put_4bit-takes p (suc (suc rs)) x r hr h = absurd (omega arith)

put_4bit-Does :
    (rs x : ℕ) (reads : List ℕ) {p : Pins}
    → Ready p
    → rs < 2
    → x < 16
    → Does width (put_4bit rs 0 x) reads p tt reads (record { rs = line rs; bus = x } ∷ [])
unfolding put_4bit select
put_4bit-Does zero x reads {p} r hr h = record {
  outcome = refl;
  leaves = refl;
  takes = put_4bit-takes p 0 x r hr h;
  ready = record {
    control =
        Controlled-stays r.control refl refl refl
          (rw (r.control.clock_a, r.control.clock_b, r.control.kept) refl);
    e_low = refl;
    d4 = r.d4;
    d5 = r.d5;
    d6 = r.d6;
    d7 = r.d7;
  };
  safe =
      rw (r.control.a1, r.control.a2, r.control.clock_a, r.control.clock_b, r.control.kept)
        (refl, (refl, (refl, (refl, (refl, (refl, tt))))));
}
put_4bit-Does (suc zero) x reads {p} r hr h = record {
  outcome = refl;
  leaves = refl;
  takes = put_4bit-takes p 1 x r hr h;
  ready = record {
    control =
        Controlled-stays r.control refl refl refl
          (rw (r.control.clock_a, r.control.clock_b, r.control.kept) refl);
    e_low = refl;
    d4 = r.d4;
    d5 = r.d5;
    d6 = r.d6;
    d7 = r.d7;
  };
  safe =
      rw (r.control.a1, r.control.a2, r.control.clock_a, r.control.clock_b, r.control.kept)
        (refl, (refl, (refl, (refl, (refl, (refl, tt))))));
}
put_4bit-Does (suc (suc rs)) x reads r hr h = absurd (omega arith)

pub send_4bit-Does :
    (rs x : ℕ) (reads : List ℕ) {p : Pins}
    → Ready p
    → rs < 2
    → x < 16
    → Does width (send_4bit rs 0 x) reads p tt reads (record { rs = line rs; bus = x } ∷ [])
unfolding send_4bit
send_4bit-Does rs x reads r hr h =
    let small : ltb x 16 ≡ true = ground arith in rw small (put_4bit-Does rs x reads r hr h)

-- A byte leaves as its two halves, the high one first.
pub send_8bit-Does :
    (rs x : ℕ) (reads : List ℕ) {p : Pins}
    → Ready p
    → rs < 2
    → x < 256
    → Does width
        (send_8bit rs 0 x)
        reads
        p
        tt
        reads
        (record { rs = line rs; bus = x / 16 } ∷ record { rs = line rs; bus = x % 16 } ∷ [])
unfolding send_8bit
send_8bit-Does rs x reads r hr h =
    let high = send_4bit-Does rs (x / 16) reads r hr (omega arith) in
    >>=-Does width (λ _. send_4bit rs 0 (x % 16)) high
      (send_4bit-Does rs (x % 16) reads high.ready hr (omega arith))

-- The low answer shows nothing on PB8 to PB11, which are not part of the bus.
abbrev pub IsClean : ℕ → Type 0
IsClean idr = idr / 256 % 16 ≡ 0

pub data Busy : List ℕ → List ℕ → Type 0 where
  busy_answer : (h l : ℕ) (rest : List ℕ) → h / 128 % 2 ≡ 1 → IsClean l → Busy (h ∷ l ∷ rest) rest

pub data Free : List ℕ → List ℕ → Type 0 where
  free_answer : (h l : ℕ) (rest : List ℕ) → h / 128 % 2 ≡ 0 → IsClean l → Free (h ∷ l ∷ rest) rest

join_of_clean :
    (h l : ℕ)
    → IsClean l
    → join (nibble_sample h) (nibble_sample l) ≡ pure (h / 16 % 16 * 16 + l / 16 % 16)
unfolding join
join_of_clean h l clean =
    let fits : ltb (h / 16 % 256 * 16 % 256 + l / 16 % 256) 256 ≡ true = ground arith in
    rw fits (ap pure (omega arith))

-- Reading the busy flag in two halves gives the byte that the display drives.
pub read_busy_flag-Does :
    (h l : ℕ) (rest : List ℕ) {p : Pins}
    → Ready p
    → IsClean l
    → Does width read_busy_flag (h ∷ l ∷ rest) p (h / 16 % 16 * 16 + l / 16 % 16) rest []
unfolding read_busy_flag
read_busy_flag-Does h l rest {p} r clean = record {
  outcome = rw joined;
  leaves = rw joined;
  takes = rw (joined, r.control.a1, r.control.a2, r.e_low) refl;
  ready = rw joined (record {
    control =
        Controlled-stays r.control refl refl refl
          (rw (r.control.clock_a, r.control.clock_b, r.control.kept) refl);
    e_low = refl;
    d4 = refl;
    d5 = refl;
    d6 = refl;
    d7 = refl;
  });
  safe =
      rw (joined, r.control.a1, r.control.a2, r.control.clock_a, r.control.clock_b, r.control.kept)
        (refl, (refl, (refl, (refl, (refl, (refl, (refl, (refl, (refl, (refl, tt))))))))));
}
  where
    joined : join (nibble_sample h) (nibble_sample l) ≡ pure (h / 16 % 16 * 16 + l / 16 % 16)
    joined = join_of_clean h l clean

-- If the answers show PB8 to PB11 so that the two halves exceed a byte, the sum overflows.
pub read_busy_flag_overflows :
    (h l : ℕ) (rest : List ℕ)
    → 256 ≤ h / 16 % 16 * 16 + l / 16 % 256
    → (read_busy_flag (h ∷ l ∷ rest)).outcome ≡ panic
unfolding read_busy_flag join
read_busy_flag_overflows h l rest over = rw big
  where
    big : ltb (h / 16 % 256 * 16 % 256 + l / 16 % 256) 256 ≡ false
    big = ground arith

Busy-shorter : {reads rest : List ℕ} → Busy reads rest → length rest < length reads
Busy-shorter (busy_answer h l rest b c) = omega arith

on_Busy :
    {reads rest : List ℕ} {p : Pins}
    → Ready p
    → Busy reads rest
    → (s : ℕ) × Does width read_busy_flag reads p s rest [] × ((s / 2 ^ 7 % 2 == 1) ≡ true)
on_Busy r (busy_answer h l rest b c) =
    (h / 16 % 16 * 16 + l / 16 % 16, read_busy_flag-Does h l rest r c, ground arith)

on_Free :
    {reads rest : List ℕ} {p : Pins}
    → Ready p
    → Free reads rest
    → (s : ℕ) × Does width read_busy_flag reads p s rest [] × ((s / 2 ^ 7 % 2 == 1) ≡ false)
on_Free r (free_answer h l rest b c) =
    (h / 16 % 16 * 16 + l / 16 % 16, read_busy_flag-Does h l rest r c, ground arith)

round : Round width read_busy_flag Busy Free
round = record { shorter = Busy-shorter; on_Busy = on_Busy; on_Free = on_Free }

-- The answers of a wait.
abbrev pub Waits : List ℕ → List ℕ → Type 0
Waits = Idles width Busy Free

pub wait_and_send_8bit-Does :
    (rs x ms : ℕ) {reads rest : List ℕ} {p : Pins}
    → Ready p
    → rs < 2
    → x < 256
    → Waits reads rest
    → Does width
        (wait_and_send_8bit rs 0 x ms)
        reads
        p
        tt
        rest
        (record { rs = line rs; bus = x / 16 } ∷ record { rs = line rs; bus = x % 16 } ∷ [])
unfolding wait_and_send_8bit wait_for_idle
wait_and_send_8bit-Does rs x ms {reads} {rest} r hr h i =
    let idle = idle_loop-Does width read_busy_flag Busy Free round ms r i in
    >>=-Does width (λ _. send_8bit rs 0 x) idle (send_8bit-Does rs x rest idle.ready hr h)
