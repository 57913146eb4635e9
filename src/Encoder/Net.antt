-- ===== src/Encoder/Net.antt =====
-- What the handler of s06_tim/src/bin/s06c05_encoder_2int.rs counts.
use rust_on_stm32_notebook.Common.{
  ℕ, zero, suc, ◌+◌, ◌<◌, ◌≤◌, ◌≡◌, refl, true, if◌then◌else◌, List, [], ◌∷◌, length, ltb, arith,
}
use rust_on_stm32_notebook.Hardware.{Outcome, done, panic, waiting, is_set}
use rust_on_stm32_notebook.Encoder.{ℤ, pos, negsuc, add_one, sub_one, tim2}

abbrev pub then_turn : Outcome ℤ → (ℤ → Outcome ℤ) → Outcome ℤ
then_turn (done n) k = k n
then_turn panic k = panic
then_turn waiting k = waiting

-- A sequence of interrupts, each with the direction bit that it reads.
unfoldable pub turns : List ℕ → ℤ → Outcome ℤ
turns [] num = done num
turns (d ∷ ds) num = then_turn (tim2 num (d ∷ [])).outcome (λ n. turns ds n)

unfoldable pub downs : List ℕ → ℕ
downs [] = 0
downs (d ∷ ds) = if is_set d then suc (downs ds) else downs ds

unfoldable pub ups : List ℕ → ℕ
ups [] = 0
ups (d ∷ ds) = if is_set d then ups ds else suc (ups ds)

-- a number is the difference of two others
abbrev pub IsDifference : ℤ → ℕ → ℕ → Type 0
IsDifference (pos n) u d = n + d ≡ u
IsDifference (negsuc n) u d = u + suc n ≡ d

-- the size of a number, with which the room up to the ends of i16 is counted
abbrev pub InRoom : ℤ → ℕ → Type 0
InRoom (pos n) k = n + k ≤ 32767
InRoom (negsuc n) k = n + k ≤ 32767

below : (n : ℕ) → n < 32767 → ltb n 32767 ≡ true
below n h = ground arith

-- One interrupt in the room that is left: the number stays the difference.
up_lem :
    (z : ℤ) (u d k : ℕ)
    → IsDifference z u d
    → InRoom z (suc k)
    → (z' : ℤ) × (((tim2 z (0 ∷ [])).outcome ≡ done z') × (IsDifference z' (u + 1) d × InRoom z' k))
unfolding tim2 add_one
up_lem (pos n) u d k h r =
    (pos (n + 1), (rw (below n (omega arith)) refl, (omega arith, omega arith)))
up_lem (negsuc zero) u d k h r = (pos 0, (refl, (omega arith, omega arith)))
up_lem (negsuc (suc n)) u d k h r = (negsuc n, (refl, (omega arith, omega arith)))

down_lem :
    (z : ℤ) (v u d k : ℕ)
    → IsDifference z u d
    → InRoom z (suc k)
    → (z' : ℤ) × (((tim2 z (suc v ∷ [])).outcome ≡ done z')
        × (IsDifference z' u (d + 1) × InRoom z' k))
unfolding tim2 sub_one
down_lem (pos zero) v u d k h r = (negsuc 0, (refl, (omega arith, omega arith)))
down_lem (pos (suc n)) v u d k h r = (pos n, (refl, (omega arith, omega arith)))
down_lem (negsuc n) v u d k h r =
    (negsuc (n + 1), (rw (below n (omega arith)) refl, (omega arith, omega arith)))

IsDifference-eq :
    (z : ℤ) {u u' d d' : ℕ} → u ≡ u' → d ≡ d' → IsDifference z u d → IsDifference z u' d'
IsDifference-eq (pos n) p q h = omega arith
IsDifference-eq (negsuc n) p q h = omega arith

turns_lem :
    (ds : List ℕ) (z : ℤ) (u d : ℕ)
    → IsDifference z u d
    → InRoom z (length ds)
    → (z' : ℤ) × ((turns ds z ≡ done z') × IsDifference z' (ups ds + u) (downs ds + d))
unfolding turns ups downs
turns_lem [] z u d h r = (z, (refl, IsDifference-eq z (omega arith) (omega arith) h))
turns_lem (zero ∷ ds) z u d h r =
    let (z1, (e, (h1, r1))) = up_lem z u d (length ds) h r in
    let (z2, (e2, h2)) = turns_lem ds z1 (u + 1) d h1 r1 in
    (z2, (rw e e2, IsDifference-eq z2 (omega arith) (omega arith) h2))
turns_lem (suc v ∷ ds) z u d h r =
    let (z1, (e, (h1, r1))) = down_lem z v u d (length ds) h r in
    let (z2, (e2, h2)) = turns_lem ds z1 u (d + 1) h1 r1 in
    (z2, (rw e e2, IsDifference-eq z2 (omega arith) (omega arith) h2))

-- At most 32767 interrupts from the start are all handled without a panic, in whatever directions they
-- come, and the number is at the end the interrupts upward less the interrupts downward.
pub turns_count_net :
    (ds : List ℕ)
    → length ds ≤ 32767
    → (z : ℤ) × ((turns ds (pos 0) ≡ done z) × IsDifference z (ups ds) (downs ds))
turns_count_net ds h =
    let (z, (e, i)) = turns_lem ds (pos 0) 0 0 refl (omega arith) in
    (z, (e, IsDifference-eq z (omega arith) (omega arith) i))
