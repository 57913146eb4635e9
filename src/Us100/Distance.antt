-- ===== src/Us100/Distance.antt =====
-- The f32 arithmetic of the US100 drivers (s06_tim/src/bin/s06c04_us100_driver_01freerun.rs and
-- s06c04_us100_driver_02periodic.rs).
use native.Mathlib.Nat.{div-add-mod', mod-lt}
use rust_on_stm32_notebook.Common.{
  ℕ, zero, suc, ◌+◌, ◌-◌, ◌*◌, ◌/◌, ◌%◌, ◌^◌, ◌==◌, ◌≤◌, ◌<◌, ◌≡◌, refl, sym, ◌⊎◌, inl, inr, true,
  ◌&&◌, ◌||◌, ltb, Bool-cases, arith,
}
use rust_on_stm32_notebook.Us100.{weight, nearest, round_f32, speed_of_sound, distance}

-- The weight is 1, or the number has 24 bits above it.
abbrev HasWeight : ℕ → ℕ → Type 0
HasWeight u n = (u ≡ 1) ⊎ (u * 2 ^ 23 ≤ n)

weight-HasWeight : (fuel u n : ℕ) → HasWeight u n → HasWeight (weight fuel u n) n
unfolding weight
weight-HasWeight zero u n h = h
weight-HasWeight (suc fuel) u n h = elim (Bool-cases (ltb n (u * 2 ^ 24))) [
  | inl e ↦ rw e h
  | inr e ↦ rw e (weight-HasWeight fuel (2 * u) n (inr (ground arith)))
]

-- Rounding errs by at most one part in 2 ^ 24.
pub record IsClose (x n : ℕ) : Type 0 where
  pub above : 2 ^ 24 * x ≤ (2 ^ 24 + 1) * n
  pub below : (2 ^ 24 - 1) * n ≤ 2 ^ 24 * x

down-IsClose : (u x r n : ℕ) → n ≡ x + r → 2 * r ≤ u → HasWeight u n → IsClose x n
down-IsClose u x r n e l (inl h) = record { above = omega arith; below = omega arith }
down-IsClose u x r n e l (inr h) = record { above = omega arith; below = omega arith }

up-IsClose : (u x r n : ℕ) → n ≡ x + r → r < u → u ≤ 2 * r → HasWeight u n → IsClose (x + u) n
up-IsClose u x r n e k l (inl h) = record { above = omega arith; below = omega arith }
up-IsClose u x r n e k l (inr h) = record { above = omega arith; below = omega arith }

nearest-IsClose : (u q r n : ℕ) → n ≡ q * u + r → r < u → HasWeight u n → IsClose (nearest u q r) n
nearest-IsClose u q r n e k h = elim (Bool-cases (ltb (2 * r) u || (2 * r == u && q % 2 == 0))) [
  | inl b ↦ rw b (down-IsClose u (q * u) r n e (ground arith) h)
  | inr b ↦ rw b (up-IsClose u (q * u) r n e k (ground arith) h)
]

weight_pos : (fuel u n : ℕ) → 1 ≤ u → 1 ≤ weight fuel u n
unfolding weight
weight_pos zero u n h = h
weight_pos (suc fuel) u n h = elim (Bool-cases (ltb n (u * 2 ^ 24))) [
  | inl e ↦ rw e h
  | inr e ↦ rw e (weight_pos fuel (2 * u) n (omega arith))
]

pub round_f32-IsClose : (n : ℕ) → IsClose (round_f32 n) n
unfolding round_f32
round_f32-IsClose n =
    nearest-IsClose u (n / u) (n % u) n (sym (div-add-mod' n u))
      (mod-lt n (weight_pos 40 1 n (omega arith))) (weight-HasWeight 40 1 n (inl refl))
  where
    u : ℕ
    u = weight 40 1 n

exact : (x n : ℕ) → n < 2 ^ 24 → IsClose x n → x ≡ n
exact x n h c = omega (arith, c.above, c.below)

module _ (n : ℕ) (h : n ≤ 390000) where
  rounded : ℕ
  rounded = round_f32 (n * speed_of_sound)

  rounded-IsClose : IsClose rounded (n * speed_of_sound)
  unfolding rounded
  rounded-IsClose = round_f32-IsClose (n * speed_of_sound)

  fits : ltb (rounded / 2 ^ 26) 65536 ≡ true
  fits = ground (arith, h, rounded-IsClose.above)

  distance-rounded : distance n ≡ rounded / 2 ^ 26
  unfolding distance rounded
  distance-rounded = rw (exact (round_f32 n) n (omega (arith, h)) (round_f32-IsClose n), fits)

-- The distance that the code computes in f32 from an echo of n ticks, and cuts to whole
-- millimetres, is that of sound at 0.3314 mm in a tick on half the way, cut down to the millimetre,
-- up to an error of 0.01 mm, for any n up to 390000.
pub distance_accurate :
    (n : ℕ)
    → n ≤ 390000
    → (10000 * distance n ≤ 1657 * n + 100) × (1657 * n < 10000 * (distance n + 1) + 100)
distance_accurate n h =
    rw (distance-rounded n h)
      (omega (arith, (rounded-IsClose n h).above), omega (arith, (rounded-IsClose n h).below))
