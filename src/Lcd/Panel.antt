-- ===== src/Lcd/Panel.antt =====
-- What an LCD1602 on the pins of s11_lcd1602 sees of a run of the driver. The display takes the data
-- bus when E falls with RW low, as a command or a character by RS. A pin that the controller does not
-- drive is pulled down: by the set-ups, and E before them by the external resistor that the comments of
-- both programs ask for (without it E floats during a reset, and the display may take garbage, which is not
-- modelled). With RW high the display itself drives the bus while E is high. A write to a register of
-- a port whose clock is off is lost; the pins here move, and remember that a write was lost.
use rust_on_stm32_notebook.Common.{
  ℕ, zero, suc, ◌+◌, ◌==◌, Bool, true, false, ◌&&◌, ◌||◌, not, if◌then◌else◌, List, [], ◌∷◌, ◌++◌,
  ◌≡◌,
}
use rust_on_stm32_notebook.Hardware.{Value, Effect, modify, sample}
use rust_on_stm32_notebook.Lcd
use rust_on_stm32_notebook.Lcd.{Field}

pub record Pins : Type 0 where
  pub rs : Bool
  pub rw : Bool
  pub e : Bool
  -- the output latch of PB0 to PB15, and which of these pins are outputs
  pub level : ℕ → Bool
  pub drives : ℕ → Bool
  -- which of PA0 to PA15 are outputs
  pub drives_a : ℕ → Bool
  -- whether the clocks of GPIOA and GPIOB are on, and whether a write was lost
  pub clocked_a : Bool
  pub clocked_b : Bool
  pub lost : Bool

-- After a reset every pin is an input, its output latch is low, and the clocks of the ports are off.
abbrev pub reset_pins : Pins
reset_pins = record {
  rs = false;
  rw = false;
  e = false;
  level = λ k. false;
  drives = λ k. false;
  drives_a = λ k. false;
  clocked_a = false;
  clocked_b = false;
  lost = false;
}

abbrev pub is_high : Value → Bool
is_high Value.high = true
is_high (Value.bit b) = b
is_high _ = false

abbrev pub is_output : Value → Bool
is_output Value.output = true
is_output _ = false

abbrev pub is_enabled : Value → Bool
is_enabled Value.enabled = true
is_enabled _ = false

abbrev pub update : (ℕ → Bool) → ℕ → Bool → ℕ → Bool
update f k b = λ j. if j == k then b else f j

-- A write to a register of GPIOA and of GPIOB.
abbrev pub reach_a : Pins → Pins
reach_a p = record p { lost = p.lost || not p.clocked_a }

abbrev pub reach_b : Pins → Pins
reach_b p = record p { lost = p.lost || not p.clocked_b }

abbrev pub drive : Field → Value → Pins → Pins
drive Lcd.gpioaen v p = record p { clocked_a = is_enabled v }
drive Lcd.gpioben v p = record p { clocked_b = is_enabled v }
drive (Lcd.odr_a zero) v p = reach_a (record p { rs = is_high v })
drive (Lcd.odr_a (suc zero)) v p = reach_a (record p { rw = is_high v })
drive (Lcd.odr_a (suc (suc zero))) v p = reach_a (record p { e = is_high v })
drive (Lcd.odr_a _) v p = reach_a p
drive (Lcd.moder_a k) v p = reach_a (record p { drives_a = update p.drives_a k (is_output v) })
drive (Lcd.pupdr_a k) v p = reach_a p
drive (Lcd.ot_a k) v p = reach_a p
drive (Lcd.odr_b k) v p = reach_b (record p { level = update p.level k (is_high v) })
drive (Lcd.moder_b k) v p = reach_b (record p { drives = update p.drives k (is_output v) })
drive (Lcd.pupdr_b k) v p = reach_b p
drive (Lcd.ot_b k) v p = reach_b p
drive _ v p = p

abbrev pub drive_all : List (Field × Value) → Pins → Pins
drive_all [] p = p
drive_all ((f, v) ∷ fields) p = drive_all fields (drive f v p)

abbrev pub after : Effect Field → Pins → Pins
after (modify fields) p = drive_all fields p
after (sample f v) p = p

-- The pins at the end of a run.
abbrev pub final : Pins → List (Effect Field) → Pins
final p [] = p
final p (x ∷ t) = final (after x p) t

-- What the display takes at one falling edge.
pub record Latch : Type 0 where
  pub rs : Bool
  pub bus : ℕ

abbrev pub weight : ℕ → Bool → ℕ
weight w true = w
weight w false = 0

-- The control lines as the display sees them.
abbrev pub seen_rs : Pins → Bool
seen_rs p = if p.drives_a 0 then p.rs else false

abbrev pub seen_rw : Pins → Bool
seen_rw p = if p.drives_a 1 then p.rw else false

abbrev pub seen_e : Pins → Bool
seen_e p = if p.drives_a 2 then p.e else false

-- A data pin as the display sees it.
abbrev pub seen : Pins → ℕ → Bool
seen p k = if p.drives k then p.level k else false

-- The number on PB0 to PB7, and on PB4 to PB7.
unfoldable pub byte : Pins → ℕ
byte p =
    weight 128 (seen p 7)
    + weight 64 (seen p 6)
    + weight 32 (seen p 5)
    + weight 16 (seen p 4)
    + weight 8 (seen p 3)
    + weight 4 (seen p 2)
    + weight 2 (seen p 1)
    + weight 1 (seen p 0)

unfoldable pub nibble : Pins → ℕ
nibble p = weight 8 (seen p 7) + weight 4 (seen p 6) + weight 2 (seen p 5) + weight 1 (seen p 4)

module _ (bus : Pins → ℕ) where
  -- E falls and RW is low: the bus before the edge is taken.
  abbrev pub edge : Pins → Pins → List Latch
  edge p q =
      if seen_e p && not (seen_e q) && not (seen_rw p)
      then record { rs = seen_rs p; bus = bus p } ∷ []
      else []

  abbrev pub latches : Pins → List (Effect Field) → List Latch
  latches p [] = []
  latches p (x ∷ t) = edge p (after x p) ++ latches (after x p) t

-- A write was lost, or the controller drives a data pin while the display does: PB4 to PB7, and PB0 to PB7.
abbrev pub conflict_up : Pins → Bool
conflict_up p =
    p.lost || seen_e p && seen_rw p && (p.drives 7 || p.drives 6 || p.drives 5 || p.drives 4)

abbrev pub conflict : Pins → Bool
conflict p =
    conflict_up p || seen_e p && seen_rw p && (p.drives 3 || p.drives 2 || p.drives 1 || p.drives 0)

-- The controller drives RS, RW and E, the clocks of both ports are on, and no write was lost.
pub record Controlled (p : Pins) : Type 0 where
  pub a0 : p.drives_a 0 ≡ true
  pub a1 : p.drives_a 1 ≡ true
  pub a2 : p.drives_a 2 ≡ true
  pub clock_a : p.clocked_a ≡ true
  pub clock_b : p.clocked_b ≡ true
  pub kept : p.lost ≡ false

-- Accesses that change no mode of GPIOA and no clock keep the control.
pub Controlled-stays :
    {p q : Pins}
    → Controlled p
    → q.drives_a ≡ p.drives_a
    → q.clocked_a ≡ p.clocked_a
    → q.clocked_b ≡ p.clocked_b
    → q.lost ≡ false
    → Controlled q
Controlled-stays c modes a b kept = record {
  a0 = rw modes c.a0;
  a1 = rw modes c.a1;
  a2 = rw modes c.a2;
  clock_a = rw a c.clock_a;
  clock_b = rw b c.clock_b;
  kept = kept;
}

-- No state of a run has the given conflict.
module _ (clash : Pins → Bool) where
  abbrev pub Safe : Pins → List (Effect Field) → Type 0
  Safe p [] = Unit
  Safe p (x ∷ t) = (clash (after x p) ≡ false) × Safe (after x p) t
