-- ===== src/Hardware.antt =====
-- Register-level programs. The firmware reaches the peripherals through the register access crate
-- (stm32f4xx-hal's pac), which is not part of the repository. A program is modelled by what it does
-- on the bus: a `modify` or `write` of a register is an effect that lists the fields set, in one bus
-- access, with the value's name or its bits; a read of a register is an effect too, and its value is
-- the next one that the hardware hands out. So a statement about a program holds for every behaviour
-- of the hardware, or says what it needs of the values read.
pub mod Laws
pub mod Sending
pub mod Monitor
pub mod Ensures
use rust_on_stm32_notebook.Common.{
  ℕ, zero, suc, Bool, true, false, if◌then◌else◌, List, [], ◌∷◌, ◌++◌, Option, none, some, length,
  ltb, ◌+◌, ◌^◌,
}

-- The values that the register access crate names, and the plain bits.
pub data Value : Type 0 where
  bits : ℕ → Value
  bit : Bool → Value
  low high set_bit clear_bit on enabled disabled clear reset_on : Value
  hse pll lse div1 div2 div4 div8 : Value
  input output alternate analog push_pull pull_up pull_down medium_speed : Value
  af1 af2 af7 m8 m9 even stop1 : Value
  up down counter_only pwm_mode1 pwm_mode2 on_update : Value
  bits16 incr8 incr16 priority_high incremented memory_to_peripheral full : Value
  ws3 ti1 ti1fp1 reset_mode bits8 : Value
  hsi af0 very_high_speed memory_to_memory circular_off level_medium encoder_mode3 div32_n8 ti2 :
      Value
  tim2_cc2 tim2_trgo no_underrun rising_edge cycles480 : Value
  af4 af5 af9 af10 open_drain high_speed add7 ack start_condition stop_condition ws1 as_master
        as_slave slave_not_selected :
      Value
  peripheral_to_memory single fixed half ti3 unchanged dropped masked : Value
  reset_value init_mode free_running_mode am twenty_four_hour not_mask unmasked pend not_reset :
      Value

pub data Effect (F : Type 0) : Type 0 where
  -- one write access: the fields set, in the order of the source
  modify : List (F × Value) → Effect F
  -- one read access and its answer
  sample : F → ℕ → Effect F

-- `panic` is a Rust panic; `waiting` says that the given answers of the hardware are used up.
pub data Outcome (A : Type 0) : Type 0 where
  done : A → Outcome A
  panic : Outcome A
  waiting : Outcome A

pub record Run (F A : Type 0) : Type 0 where
  pub outcome : Outcome A
  pub trace : List (Effect F)
  pub rest : List ℕ

-- A program is given the answers that the hardware will hand out to its reads.
abbrev pub M : Type 0 → Type 0 → Type 0
M F A = List ℕ → Run F A

module _ {F : Type 0} where
  abbrev pub pure : {A : Type 0} → A → M F A
  pure a reads = record { outcome = done a; trace = []; rest = reads }

  abbrev pub fail : {A : Type 0} → M F A
  fail reads = record { outcome = panic; trace = []; rest = reads }

  abbrev pub chain : {A B : Type 0} → Outcome A → List (Effect F) → List ℕ → (A → M F B) → Run F B
  chain (done a) t rest f =
      let r = f a rest in record { outcome = r.outcome; trace = t ++ r.trace; rest = r.rest }
  chain panic t rest f = record { outcome = panic; trace = t; rest = rest }
  chain waiting t rest f = record { outcome = waiting; trace = t; rest = rest }

  infixl 5 ◌>>=◌ ◌>>◌
  abbrev pub ◌>>=◌ : {A B : Type 0} → M F A → (A → M F B) → M F B
  ◌>>=◌ m f reads = let r = m reads in chain r.outcome r.trace r.rest f

  abbrev pub ◌>>◌ : {B : Type 0} → M F (Unit {0}) → M F B → M F B
  m >> k = m >>= λ _. k

  -- `reg.modify(..)` or `reg.write(..)`
  abbrev pub write : List (F × Value) → M F (Unit {0})
  write fields reads = record { outcome = done tt; trace = modify fields ∷ []; rest = reads }

  abbrev pub read : F → M F ℕ
  read f [] = record { outcome = waiting; trace = []; rest = [] }
  read f (v ∷ reads) = record { outcome = done v; trace = sample f v ∷ []; rest = reads }

  -- `while !stop(reg.read()) {}`: one read a round, so it recurs on the answers.
  unfoldable pub poll : F → (ℕ → Bool) → M F (Unit {0})
  poll f stop [] = record { outcome = waiting; trace = []; rest = [] }
  poll f stop (v ∷ reads) =
      let more = poll f stop reads in
      if stop v
      then record { outcome = done tt; trace = sample f v ∷ []; rest = reads }
      else record { outcome = more.outcome; trace = sample f v ∷ more.trace; rest = more.rest }

  -- `while !stop(reg.read()) { count += 1 }` on u32, in a debug build
  unfoldable pub poll_count : F → (ℕ → Bool) → ℕ → M F ℕ
  poll_count f stop count [] = record { outcome = waiting; trace = []; rest = [] }
  poll_count f stop count (v ∷ reads) =
      let more = poll_count f stop (count + 1) reads in
      if stop v
      then record { outcome = done count; trace = sample f v ∷ []; rest = reads }
      else if ltb (count + 1) (2 ^ 32)
      then record { outcome = more.outcome; trace = sample f v ∷ more.trace; rest = more.rest }
      else record { outcome = panic; trace = sample f v ∷ []; rest = reads }

  -- A read whose answer is dropped, as is done to clear flags: an access that gives the program nothing.
  abbrev pub discard : F → M F (Unit {0})
  discard f = write ((f, Value.dropped) ∷ [])

  -- `if b { m }`
  abbrev pub when_true : Bool → M F (Unit {0}) → M F (Unit {0})
  when_true b m = if b then m else pure tt

  -- `.unwrap()` of an `Option`
  abbrev pub unwrap : {A : Type 0} → Option A → M F A
  unwrap none = fail
  unwrap (some a) = pure a

-- A one-bit field is set.
abbrev pub is_set : ℕ → Bool
is_set zero = false
is_set (suc _) = true

-- The answers with the field set.
abbrev pub count_set : List ℕ → ℕ
count_set [] = 0
count_set (v ∷ vs) = if is_set v then suc (count_set vs) else count_set vs
