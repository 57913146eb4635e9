-- ===== src/Us100/Range.antt =====
-- Which echoes the handler of s06_tim/src/bin/s06c04_us100_driver_02periodic.rs shows, beside what the one
-- of s06c04_us100_driver_01freerun.rs shows.
use rust_on_stm32_notebook.Common.{
  ℕ, ◌+◌, ◌*◌, ◌-◌, ◌/◌, ◌%◌, ◌^◌, ◌<◌, ◌≤◌, ◌≡◌, Bool, true, false, List, [], ◌∷◌, some, ltb,
  arith,
}
use rust_on_stm32_notebook.Hardware.{bits, Effect, modify, M, done}
use rust_on_stm32_notebook.Us100
use rust_on_stm32_notebook.Us100.{
  Field, Report, distance_mm, measured, distance, tim3, tim3_capture,
}
use rust_on_stm32_notebook.Us100.Distance.{distance_accurate}
use rust_on_stm32_notebook.Us100.Numbering.{next_count-done}
use rust_on_stm32_notebook.Us100.Setup
use rust_on_stm32_notebook.Us100.Setup.Free
use rust_on_stm32_notebook.Us100.Periodic.{show_interval, measure, tim2_capture, tim2}

-- The line for a distance d in the debug and in the release build.
abbrev pub line : Bool → ℕ → ℕ → ℕ → ℕ → Report
line true c d begin end = measured c d begin end (end - begin)
line false c d begin end = distance_mm c d

not_ltb : (a b : ℕ) → b ≤ a → ltb a b ≡ false
not_ltb a b h = ground arith

mod_small : (a : ℕ) → a < 2 ^ 32 → a % 2 ^ 32 ≡ a
mod_small a h = omega arith

small16 : (a : ℕ) → a ≤ 27158 → a % 65536 ≡ a
small16 a h = omega arith

show_interval-in_range :
    (debug : Bool) (c begin end : ℕ) (reads : List ℕ)
    → c + 1 < 2 ^ 32
    → distance (end - begin) ≤ 4500
    → (show_interval debug c begin end reads).outcome
      ≡ done (record {
        count = c + 1;
        report = some (line debug c (distance (end - begin)) begin end);
      })
unfolding show_interval
show_interval-in_range true c begin end reads l h = next_count-done true c _ reads l
show_interval-in_range false c begin end reads l h =
    rw (not_ltb 4500 (distance (end - begin)) h) (next_count-done false c _ reads l)

-- The captures of an echo of at most 27158 ticks, for which the code computes at most 4500 mm, with
-- no wrap of the counter between them, are logged in both builds while the number of lines is below
-- 2 ^ 32 - 1: the line has the distance of half the way at 0.3314 mm in a tick, cut down to the
-- millimetre, up to an error of 0.01 mm.
pub echo_is_shown :
    (debug rising : Bool) (c begin end : ℕ) (reads : List ℕ)
    → c + 1 < 2 ^ 32
    → begin ≤ end
    → end < 2 ^ 32
    → end - begin ≤ 27158
    → (d : ℕ) × (((tim2 debug
            (record { update = false; rising = rising; falling = true })
            c
            (begin ∷ end ∷ reads)).outcome
          ≡ done (record { count = c + 1; report = some (line debug c d begin end) }))
        × ((10000 * d ≤ 1657 * (end - begin) + 100)
            × (1657 * (end - begin) < 10000 * (d + 1) + 100)))
unfolding tim2 tim2_capture measure
echo_is_shown debug rising c begin end reads l o b r =
    let a = distance_accurate (end - begin) (omega arith) in
    (
      distance (end - begin),
      (
        rw (mod_small begin (omega arith), mod_small end b, not_ltb end begin o)
            (show_interval-in_range debug c begin end reads l (omega (arith, a))),
        a,
      ),
    )

-- The value last written to the prescaler, which counts from 0, and the ticks that the timer makes in some
-- cycles of its clock with it.
abbrev pub prescaler : ℕ → List (Effect Field) → ℕ
prescaler v [] = v
prescaler v (modify ((Us100.psc, bits n) ∷ []) ∷ t) = prescaler n t
prescaler v (_ ∷ t) = prescaler v t

abbrev pub ticks : ℕ → M Field (Unit {0}) → ℕ
ticks cycles set_up = cycles / (prescaler 0 (set_up []).trace + 1)

-- The set-ups let the timers tick at 1 and at 1.5 MHz, with the 12 MHz of HSE.
ticks_lem :
    (n : ℕ) → (ticks (24 * n) Free.setup_tim3 ≡ 2 * n) × (ticks (24 * n) Setup.setup_tim2 ≡ 3 * n)
unfolding Free.setup_tim3 Free.setup_rising Free.setup_falling Setup.setup_tim2 Setup.setup_trigger
    Setup.setup_captures
ticks_lem n = (omega arith, omega arith)

-- The line of the periodic driver for an echo of t ticks.
periodic_line :
    (rising : Bool) (c n t begin : ℕ) (reads : List ℕ)
    → t ≡ 3 * n
    → c + 1 < 2 ^ 32
    → begin + 3 * n < 2 ^ 32
    → 3 * n ≤ 27158
    → (d : ℕ) × (((tim2 false
            (record { update = false; rising = rising; falling = true })
            c
            (begin ∷ (begin + t) ∷ reads)).outcome
          ≡ done (record { count = c + 1; report = some (distance_mm c d) }))
        × ((10000 * d ≤ 1657 * (3 * n) + 100) × (1657 * (3 * n) < 10000 * (d + 1) + 100)))
periodic_line rising c n t begin reads e l b r =
    let (d, (shown, near)) =
      echo_is_shown false rising c begin (begin + 3 * n) reads l (omega arith) b (omega arith) in
    rw e (d, (shown, (omega (arith, near), omega (arith, near))))

-- One echo of 24 * n cycles of HSE, of at most 27158 ticks of the periodic driver, in which its
-- counter does not wrap, while the number of lines is below 2 ^ 32 - 1: with the prescalers of
-- their set-ups the free-running driver, in both builds, and the release build of the periodic one
-- show distances of which the second is 1.5 times the first, with less than 2 mm for the cuts to
-- whole millimetres, though the way of the echo is the same.
pub periodic_shows_too_far :
    (debug rising : Bool) (c n begin : ℕ) (reads : List ℕ)
    → c + 1 < 2 ^ 32
    → begin + 3 * n < 2 ^ 32
    → 3 * n ≤ 27158
    → (d d' : ℕ) × (((tim3 debug
            (record { update = false; falling = true })
            c
            (ticks (24 * n) Free.setup_tim3 ∷ reads)).outcome
          ≡ done (record { count = c + 1; report = some (distance_mm c d) }))
        × (((tim2 false
                (record { update = false; rising = rising; falling = true })
                c
                (begin ∷ (begin + ticks (24 * n) Setup.setup_tim2) ∷ reads)).outcome
              ≡ done (record { count = c + 1; report = some (distance_mm c d') }))
            × ((3 * d < 2 * d' + 3) × (2 * d' < 3 * d + 4))))
unfolding tim3 tim3_capture
periodic_shows_too_far debug rising c n begin reads l b r =
    let (free, periodic) = ticks_lem n in
    let near = distance_accurate (2 * n) (omega arith) in
    let (d', (shown, far)) =
      periodic_line rising c n (ticks (24 * n) Setup.setup_tim2) begin reads periodic l b r in
    (
      distance (2 * n),
      d',
      (
        rw (free, small16 (2 * n) (omega arith)) (next_count-done debug c _ reads l),
        (shown, (omega (arith, near, far), omega (arith, near, far))),
      ),
    )
