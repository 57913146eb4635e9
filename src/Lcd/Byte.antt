-- ===== src/Lcd/Byte.antt =====
-- The 8-pin driver of s11_lcd1602/src/bin/utils/mode_8pin as the display sees it.
use rust_on_stm32_notebook.Common.{
  ℕ, zero, suc, ◌+◌, ◌/◌, ◌%◌, ◌^◌, ◌<◌, ◌==◌, ◌≡◌, refl, ap, Bool, true, false, List, [], ◌∷◌,
  arith, all_below, all_below_sound, ==→eq, length,
}
use rust_on_stm32_notebook.Lcd.{select}
use rust_on_stm32_notebook.Lcd.Panel.{
  Pins, Controlled, Controlled-stays, weight, byte, latches, conflict, update,
}
use rust_on_stm32_notebook.Lcd.Driver.{Width, Does, >>=-Does}
use rust_on_stm32_notebook.Lcd.Idle.{Idles, Round, idle_loop-Does}
use rust_on_stm32_notebook.Lcd.Pin8.{send, read_busy_flag, wait_for_idle, wait_and_send}

-- Between two transfers the controller holds E low, and drives the whole bus.
pub record Ready (p : Pins) : Type 0 where
  pub control : Controlled p
  pub e_low : p.e ≡ false
  pub d0 : p.drives 0 ≡ true
  pub d1 : p.drives 1 ≡ true
  pub d2 : p.drives 2 ≡ true
  pub d3 : p.drives 3 ≡ true
  pub d4 : p.drives 4 ≡ true
  pub d5 : p.drives 5 ≡ true
  pub d6 : p.drives 6 ≡ true
  pub d7 : p.drives 7 ≡ true

pub Ready-calm : {p : Pins} → Ready p → conflict p ≡ false
Ready-calm r = rw (r.control.a2, r.e_low, r.control.kept) refl

abbrev pub width : Width
width = record { bus = byte; clash = conflict; Ready = Ready; calm = Ready-calm }

-- The control line that a number selects.
abbrev pub line : ℕ → Bool
line zero = false
line (suc _) = true

abbrev bit_at : ℕ → ℕ → Bool
bit_at x k = x / 2 ^ k % 2 == 1

abbrev from_bits : ℕ → ℕ
from_bits x =
    weight 128 (bit_at x 7)
    + weight 64 (bit_at x 6)
    + weight 32 (bit_at x 5)
    + weight 16 (bit_at x 4)
    + weight 8 (bit_at x 3)
    + weight 4 (bit_at x 2)
    + weight 2 (bit_at x 1)
    + weight 1 (bit_at x 0)

from_bits_table : all_below 256 (λ x. from_bits x == x) ≡ true
unfolding all_below
from_bits_table = refl

from_bits_lem : (x : ℕ) → x < 256 → from_bits x ≡ x
from_bits_lem x h = ==→eq _ _ (all_below_sound 256 (λ y. from_bits y == y) x from_bits_table h)

-- The level of the bus once the eight bits are written.
abbrev pub levels : (ℕ → Bool) → ℕ → ℕ → Bool
levels f x =
    update
      (update
        (update
          (update
            (update (update (update (update f 7 (bit_at x 7)) 6 (bit_at x 6)) 5 (bit_at x 5)) 4
              (bit_at x 4))
            3 (bit_at x 3))
          2 (bit_at x 2))
        1 (bit_at x 1))
      0 (bit_at x 0)

byte-levels :
    (p : Pins) (rs l : Bool) (x : ℕ)
    → Ready p
    → x < 256
    → byte (record p { rs = rs; rw = false; e = true; level = levels p.level x; lost = l }) ≡ x
unfolding byte
byte-levels p rs l x r h = rw (r.d0, r.d1, r.d2, r.d3, r.d4, r.d5, r.d6, r.d7) (from_bits_lem x h)

send-takes :
    (p : Pins) (rs x : ℕ)
    → Ready p
    → rs < 2
    → x < 256
    → latches byte p (send rs 0 x []).trace ≡ record { rs = line rs; bus = x } ∷ []
unfolding send select
send-takes p zero x r hr h =
    rw (r.control.a0, r.control.a1, r.control.a2, r.e_low)
      (ap (λ b. record { rs = false; bus = b } ∷ []) (byte-levels p false _ x r h))
send-takes p (suc zero) x r hr h =
    rw (r.control.a0, r.control.a1, r.control.a2, r.e_low)
      (ap (λ b. record { rs = true; bus = b } ∷ []) (byte-levels p true _ x r h))
send-takes p (suc (suc rs)) x r hr h = absurd (omega arith)

-- Sending with RW low makes the display take exactly the byte, with the register that RS selects.
pub send-Does :
    (rs x : ℕ) (reads : List ℕ) {p : Pins}
    → Ready p
    → rs < 2
    → x < 256
    → Does width (send rs 0 x) reads p tt reads (record { rs = line rs; bus = x } ∷ [])
unfolding send select
send-Does zero x reads {p} r hr h = record {
  outcome = refl;
  leaves = refl;
  takes = send-takes p 0 x r hr h;
  ready = record {
    control =
        Controlled-stays r.control refl refl refl
          (rw (r.control.clock_a, r.control.clock_b, r.control.kept) refl);
    e_low = refl;
    d0 = r.d0;
    d1 = r.d1;
    d2 = r.d2;
    d3 = r.d3;
    d4 = r.d4;
    d5 = r.d5;
    d6 = r.d6;
    d7 = r.d7;
  };
  safe =
      rw (r.control.a1, r.control.a2, r.control.clock_a, r.control.clock_b, r.control.kept)
        (refl, (refl, (refl, (refl, (refl, (refl, tt))))));
}
send-Does (suc zero) x reads {p} r hr h = record {
  outcome = refl;
  leaves = refl;
  takes = send-takes p 1 x r hr h;
  ready = record {
    control =
        Controlled-stays r.control refl refl refl
          (rw (r.control.clock_a, r.control.clock_b, r.control.kept) refl);
    e_low = refl;
    d0 = r.d0;
    d1 = r.d1;
    d2 = r.d2;
    d3 = r.d3;
    d4 = r.d4;
    d5 = r.d5;
    d6 = r.d6;
    d7 = r.d7;
  };
  safe =
      rw (r.control.a1, r.control.a2, r.control.clock_a, r.control.clock_b, r.control.kept)
        (refl, (refl, (refl, (refl, (refl, (refl, tt))))));
}
send-Does (suc (suc rs)) x reads r hr h = absurd (omega arith)

-- One answer of a busy and of a free display.
pub data Busy : List ℕ → List ℕ → Type 0 where
  busy_answer : (v : ℕ) (rest : List ℕ) → v / 128 % 2 ≡ 1 → Busy (v ∷ rest) rest

pub data Free : List ℕ → List ℕ → Type 0 where
  free_answer : (v : ℕ) (rest : List ℕ) → v / 128 % 2 ≡ 0 → Free (v ∷ rest) rest

-- Reading the busy flag gives the byte that the display drives, and takes nothing; the controller
-- lets go of the bus before the display drives it.
pub read_busy_flag-Does :
    (v : ℕ) (rest : List ℕ) {p : Pins}
    → Ready p
    → Does width read_busy_flag (v ∷ rest) p (v % 256) rest []
unfolding read_busy_flag
read_busy_flag-Does v rest {p} r = record {
  outcome = refl;
  leaves = refl;
  takes = rw (r.control.a1, r.control.a2, r.e_low) refl;
  ready = record {
    control =
        Controlled-stays r.control refl refl refl
          (rw (r.control.clock_a, r.control.clock_b, r.control.kept) refl);
    e_low = refl;
    d0 = refl;
    d1 = refl;
    d2 = refl;
    d3 = refl;
    d4 = refl;
    d5 = refl;
    d6 = refl;
    d7 = refl;
  };
  safe =
      rw (r.control.a1, r.control.a2, r.control.clock_a, r.control.clock_b, r.control.kept)
        (refl, (refl, (refl, (refl, (refl, (refl, (refl, tt)))))));
}

Busy-shorter : {reads rest : List ℕ} → Busy reads rest → length rest < length reads
Busy-shorter (busy_answer v rest h) = omega arith

on_Busy :
    {reads rest : List ℕ} {p : Pins}
    → Ready p
    → Busy reads rest
    → (s : ℕ) × Does width read_busy_flag reads p s rest [] × ((s / 2 ^ 7 % 2 == 1) ≡ true)
on_Busy r (busy_answer v rest h) = (v % 256, read_busy_flag-Does v rest r, ground arith)

on_Free :
    {reads rest : List ℕ} {p : Pins}
    → Ready p
    → Free reads rest
    → (s : ℕ) × Does width read_busy_flag reads p s rest [] × ((s / 2 ^ 7 % 2 == 1) ≡ false)
on_Free r (free_answer v rest h) = (v % 256, read_busy_flag-Does v rest r, ground arith)

round : Round width read_busy_flag Busy Free
round = record { shorter = Busy-shorter; on_Busy = on_Busy; on_Free = on_Free }

-- The answers of a wait.
abbrev pub Waits : List ℕ → List ℕ → Type 0
Waits = Idles width Busy Free

pub wait_and_send-Does :
    (rs x ms : ℕ) {reads rest : List ℕ} {p : Pins}
    → Ready p
    → rs < 2
    → x < 256
    → Waits reads rest
    → Does width (wait_and_send rs 0 x ms) reads p tt rest (record { rs = line rs; bus = x } ∷ [])
unfolding wait_and_send wait_for_idle
wait_and_send-Does rs x ms {reads} {rest} r hr h i =
    let idle = idle_loop-Does width read_busy_flag Busy Free round ms r i in
    >>=-Does width (λ _. send rs 0 x) idle (send-Does rs x rest idle.ready hr h)
