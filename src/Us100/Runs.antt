-- ===== src/Us100/Runs.antt =====
-- What sequences of interrupts make the two US100 drivers log:
-- s06_tim/src/bin/s06c04_us100_driver_01freerun.rs and s06c04_us100_driver_02periodic.rs.
use rust_on_stm32_notebook.Common.{
  ℕ, ◌+◌, ◌-◌, ◌%◌, ◌^◌, ◌<◌, ◌≡◌, refl, inl, inr, Bool, true, false, ◌||◌, List, [], ◌∷◌, some,
  length, ltb, Bool-cases,
}
use rust_on_stm32_notebook.Hardware.{Outcome}
use rust_on_stm32_notebook.Us100.{
  timer_overflow, distance_mm, measured, out_of_order, After, Status, tim3_update, tim3_capture,
  tim3, distance,
}
use rust_on_stm32_notebook.Us100.Periodic
use rust_on_stm32_notebook.Us100.Periodic.{show_interval, measure, tim2_update, tim2_capture, tim2}
use rust_on_stm32_notebook.Us100.Numbering.{
  number, all, run, Step, IsNumbered, run-IsNumbered, next_count-done,
}

-- An interrupt of TIM3 with the flags that the handler reads, and the captured time.
pub record Interrupt3 : Type 0 where
  pub status : Status
  pub captured : ℕ

abbrev pub raised3 : Interrupt3 → Bool
raised3 e = e.status.update || e.status.falling

unfoldable pub handle3 : Bool → Interrupt3 → ℕ → Outcome After
handle3 debug e count = (tim3 debug e.status count (e.captured ∷ [])).outcome

tim3-Step :
    (debug update falling : Bool) (c captured : ℕ)
    → (update || falling) ≡ true
    → c + 1 < 2 ^ 32
    → Step (tim3 debug (record { update = update; falling = falling }) c (captured ∷ [])).outcome c
unfolding tim3 tim3_update tim3_capture number
tim3-Step debug true true c captured p l =
    inr (timer_overflow c, (refl, next_count-done debug c (some (timer_overflow c)) _ l))
tim3-Step debug true false c captured p l = inl refl
tim3-Step debug false true c captured p l =
    inr (distance_mm c (distance (captured % 65536)), (refl, next_count-done debug c _ _ l))
tim3-Step debug false false c captured p l = absurd (cc p)

-- The free-running driver, in both builds: any sequence of interrupts, each with the update flag or
-- the capture flag of CC2, that is short enough for the u32 G_CNT is handled to its end without a
-- panic, the log lines are numbered without a gap from the number that G_CNT had, and G_CNT has grown
-- by the number of lines: an update in which nothing was measured takes no number.
pub freerun-IsNumbered :
    (debug : Bool) (es : List Interrupt3) (c : ℕ)
    → all raised3 es ≡ true
    → c + length es < 2 ^ 32
    → IsNumbered (run (handle3 debug) es c) c
unfolding handle3
freerun-IsNumbered debug =
    run-IsNumbered (handle3 debug) raised3
      (λ e c. tim3-Step debug e.status.update e.status.falling c e.captured)

-- An interrupt of TIM2 with the flags that the handler reads, and the two captured times.
pub record Interrupt2 : Type 0 where
  pub status : Periodic.Status
  pub begin : ℕ
  pub end : ℕ

abbrev pub raised2 : Interrupt2 → Bool
raised2 e = e.status.update || e.status.falling

unfoldable pub handle2 : Bool → Interrupt2 → ℕ → Outcome After
handle2 debug e count = (tim2 debug e.status count (e.begin ∷ e.end ∷ [])).outcome

show_interval-Step :
    (debug : Bool) (c begin end : ℕ) (reads : List ℕ)
    → c + 1 < 2 ^ 32
    → Step (show_interval debug c begin end reads).outcome c
unfolding show_interval number
show_interval-Step true c begin end reads l = inr (
  measured c (distance (end - begin)) begin end (end - begin),
  (refl, next_count-done true c _ reads l),
)
show_interval-Step false c begin end reads l =
    elim (Bool-cases (ltb 4500 (distance (end - begin)))) [
      | inl e ↦ rw e (inl refl)
      | inr e ↦
          rw e (
            inr (distance_mm c (distance (end - begin)), (refl, next_count-done false c _ reads l)))
    ]

measure-Step :
    (debug : Bool) (c begin end : ℕ) (reads : List ℕ)
    → c + 1 < 2 ^ 32
    → Step (measure debug c begin end reads).outcome c
unfolding measure number
measure-Step debug c begin end reads l = elim (Bool-cases (ltb end begin)) [
  | inl e ↦ rw e (inr (out_of_order c begin end, (refl, next_count-done debug c _ reads l)))
  | inr e ↦ rw e (show_interval-Step debug c begin end reads l)
]

tim2-Step :
    (debug update rising falling : Bool) (c begin end : ℕ)
    → (update || falling) ≡ true
    → c + 1 < 2 ^ 32
    → Step
        (tim2 debug
          (record { update = update; rising = rising; falling = falling })
          c
          (begin ∷ end ∷ [])).outcome
        c
unfolding tim2 tim2_update tim2_capture number
tim2-Step debug true true f c begin end p l =
    inr (timer_overflow c, (refl, next_count-done debug c (some (timer_overflow c)) _ l))
tim2-Step debug true false f c begin end p l = inl refl
tim2-Step debug false r true c begin end p l =
    measure-Step debug c (begin % 2 ^ 32) (end % 2 ^ 32) [] l
tim2-Step debug false r false c begin end p l = absurd (cc p)

-- The periodic driver, in both builds: any sequence of interrupts, each with the update flag or the
-- capture flag of CC4, that is short enough for the u32 G_CNT is handled to its end without a panic,
-- the log lines are numbered without a gap from the number that G_CNT had, and G_CNT has grown by the
-- number of lines, whatever times were captured: two captures in the wrong order do not underflow.
pub periodic-IsNumbered :
    (debug : Bool) (es : List Interrupt2) (c : ℕ)
    → all raised2 es ≡ true
    → c + length es < 2 ^ 32
    → IsNumbered (run (handle2 debug) es c) c
unfolding handle2
periodic-IsNumbered debug =
    run-IsNumbered (handle2 debug) raised2
      (λ e c. tim2-Step debug e.status.update e.status.rising e.status.falling c e.begin e.end)
