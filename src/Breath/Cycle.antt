-- ===== src/Breath/Cycle.antt =====
-- The course of the duty value in s06_tim/src/bin/s06c03_led_breath.rs.
use rust_on_stm32_notebook.Common.{
  ℕ, zero, suc, ◌+◌, ◌-◌, ◌*◌, ◌/◌, ◌%◌, ◌≤◌, ◌<◌, ◌≡◌, ◌==◌, ◌&&◌, refl, Bool, true, false, List,
  [], ◌∷◌, arith, leb, if◌then◌else◌, all_below, all_below_sound, Bool-cases, inl, inr,
}
use native.Mathlib.Nat.{zero-add, suc-add, zero-mul}
use rust_on_stm32_notebook.Hardware.{Effect, modify, Outcome, done, bits}
use rust_on_stm32_notebook.Breath.{
  Field, Direction, lighting, dimming, ccr1, turn, tim3, max_arr_value,
}

-- What the interrupts leave on the LED: the direction and the value of CCR1.
abbrev pub Lamp : Type 0
Lamp = Direction × ℕ

-- The last value written to CCR1, if any.
unfoldable pub duty_after : ℕ → List (Effect Field) → ℕ
duty_after v [] = v
duty_after v (modify ((ccr1, bits n) ∷ []) ∷ t) = duty_after n t
duty_after v (_ ∷ t) = duty_after v t

abbrev dir_after : Direction → Outcome Direction → Direction
dir_after d (done d') = d'
dir_after d _ = d

-- One interrupt, with CCR1 answering what it holds: the handler run on the lamp.
unfoldable pub breathe : Lamp → Direction × ℕ
unfolding duty_after tim3 turn
breathe (d, v) = let r = tim3 d (v ∷ []) in (dir_after d r.outcome, duty_after v r.trace)

-- What one interrupt may do to the lamp. The light is a step brighter or darker, or it turns where
-- another step would leave the range, and then starts from a fixed value.
pub data Moves : Direction → ℕ → Direction → ℕ → Type 0 where
  brighter : {v v' : ℕ} → v + 50 ≤ 999 → v' ≡ v + 50 → Moves lighting v lighting v'
  darker : {v v' : ℕ} → v ≡ v' + 50 → Moves dimming v dimming v'
  turn_down : {v v' : ℕ} → 999 < v + 50 → v' ≡ 949 → Moves lighting v dimming v'
  turn_up : {v v' : ℕ} → v < 50 → v' ≡ 50 → Moves dimming v lighting v'

breathe-Moves :
    (d : Direction) (v : ℕ) → v ≤ max_arr_value → Moves d v (breathe (d, v)).0 (breathe (d, v)).1
unfolding breathe
breathe-Moves lighting v h = elim (Bool-cases (leb (v % 65536) 949)) [
  | inl low ↦ rw low (brighter (ground arith) (omega arith))
  | inr top ↦ rw top (turn_down (ground arith) refl)
]
breathe-Moves dimming v h = elim (Bool-cases (leb 50 (v % 65536))) [
  | inl enough ↦ rw enough (darker (ground arith))
  | inr bottom ↦ rw bottom (turn_up (ground arith) refl)
]

Moves-in_range : {d d' : Direction} {v v' : ℕ} → v ≤ 999 → Moves d v d' v' → v' ≤ 999
Moves-in_range h (brighter a e) = omega arith
Moves-in_range h (darker e) = omega arith
Moves-in_range h (turn_down a e) = omega arith
Moves-in_range h (turn_up a e) = omega arith

-- From every duty of the PWM range one interrupt writes a duty of the range, by one of the four moves
-- and no other.
pub breathe_in_range :
    (d : Direction) (v : ℕ)
    → v ≤ max_arr_value
    → ((breathe (d, v)).1 ≤ max_arr_value) × Moves d v (breathe (d, v)).0 (breathe (d, v)).1
breathe_in_range d v h = (Moves-in_range h (breathe-Moves d v h), breathe-Moves d v h)

-- n interrupts.
unfoldable pub breathes : ℕ → Lamp → Lamp
breathes zero s = s
breathes (suc n) s = breathes n (breathe s)

abbrev at_bottom : Lamp → Bool
at_bottom (lighting, v) = v == 50
at_bottom (dimming, v) = false

at_bottom_lem : (s : Lamp) → at_bottom s ≡ true → s ≡ (lighting, 50)
at_bottom_lem s h = ground arith

-- How many interrupts it takes to the first turn at the bottom.
abbrev pub settling : Direction → ℕ → ℕ
settling dimming v = v / 50 + 1
settling lighting v = if leb v 949 then (949 - v) / 50 + 21 else 20

abbrev settled : ℕ → Bool
settled v =
    at_bottom (breathes (settling dimming v) (dimming, v))
    && at_bottom (breathes (settling lighting v) (lighting, v))

settles_table : all_below 1000 settled ≡ true
unfolding all_below breathes breathe
settles_table = refl

settles : (d : Direction) (v : ℕ) → v < 1000 → at_bottom (breathes (settling d v) (d, v)) ≡ true
settles dimming v h = let e = all_below_sound 1000 settled v settles_table h in ground arith
settles lighting v h = let e = all_below_sound 1000 settled v settles_table h in ground arith

breathes-add : (m n : ℕ) (s : Lamp) → breathes (m + n) s ≡ breathes n (breathes m s)
unfolding breathes
breathes-add zero n s = rw zero-add
breathes-add (suc m) n s = rw suc-add (breathes-add m n (breathe s))

full_cycle : breathes 38 (lighting, 50) ≡ (lighting, 50)
unfolding breathes breathe
full_cycle = refl

cycles : (k : ℕ) → breathes (k * 38) (lighting, 50) ≡ (lighting, 50)
cycles zero = rw zero-mul (unfold breathes in refl)
cycles (suc k) =
    let e : suc k * 38 ≡ 38 + k * 38 = omega arith in rw (e, breathes-add, full_cycle) (cycles k)

-- Whatever duty of the PWM range and direction the light starts from, there is one number n of at
-- most 40 interrupts after which it is at the duty 50 and gets lighter, and it is so again k * 38
-- interrupts later, for every k: no offset builds up over the turns.
pub breathes_without_drift :
    (d : Direction) (v : ℕ)
    → v ≤ max_arr_value
    → (n : ℕ) × (n ≤ 40) × ((k : ℕ) → breathes (n + k * 38) (d, v) ≡ (lighting, 50))
breathes_without_drift d v h = (
  settling d v,
  bound d,
  λ k.
      rw (breathes-add, at_bottom_lem (breathes (settling d v) (d, v)) (settles d v (omega arith)))
        (cycles k),
)
  where
    bound : (d : Direction) → settling d v ≤ 40
    bound dimming = omega arith
    bound lighting = ground arith
