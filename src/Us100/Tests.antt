-- ===== src/Us100/Tests.antt =====
-- Runs of the two US100 drivers of s06_tim/src/bin on concrete interrupts.
use rust_on_stm32_notebook.Common.{
  ℕ, ◌+◌, ◌-◌, ◌*◌, ◌≡◌, refl, ◌≤◌, ◌<◌, arith, true, false, List, [], ◌∷◌, some,
}
use rust_on_stm32_notebook.Hardware.{done, Value, modify, sample, bits, poll}
use rust_on_stm32_notebook.Us100
use rust_on_stm32_notebook.Us100.{
  weight, round_f32, distance, tim3, tim3_capture, next_count, distance_mm,
}
use rust_on_stm32_notebook.Us100.Distance.{distance_accurate}
use rust_on_stm32_notebook.Us100.Numbering.{all, run, IsNumbered}
use rust_on_stm32_notebook.Us100.Periodic.{tim2}
use rust_on_stm32_notebook.Us100.Range.{line, ticks, echo_is_shown, periodic_shows_too_far}
use rust_on_stm32_notebook.Us100.Runs.{
  Interrupt3, handle3, freerun-IsNumbered, Interrupt2, handle2, periodic-IsNumbered,
}
use rust_on_stm32_notebook.Us100.Setup
use rust_on_stm32_notebook.Us100.Setup.Free

longest : distance 27158 ≡ 4500
unfolding distance round_f32 weight
longest = refl

-- a number beyond 24 bits is rounded, and the cast saturates
saturated : distance 4294967295 ≡ 65535
unfolding distance round_f32 weight
saturated = refl

rounded_even : round_f32 16777217 ≡ 16777216
unfolding round_f32 weight
rounded_even = refl

capture :
    (tim3 true (record { update = false; falling = true }) 1 (1200 ∷ [])).trace
    ≡ modify ((Us100.cc2if, Value.clear) ∷ [])
      ∷ sample (Us100.ccr 2) 1200
      ∷ modify ((Us100.cnt, bits 0) ∷ [])
      ∷ []
unfolding tim3 tim3_capture next_count
capture = refl

both_set_up :
    ((Setup.main (0 ∷ 1 ∷ 1 ∷ [])).outcome ≡ done tt)
    × ((Free.main (1 ∷ 0 ∷ 1 ∷ [])).outcome ≡ done tt)
unfolding Setup.main Free.main Setup.setup_hse poll Setup.setup_gpio Setup.setup_tim2
    Setup.setup_trigger Setup.setup_captures Free.setup_gpio Free.setup_tim3 Free.setup_rising
    Free.setup_falling
both_set_up = (refl, refl)

distance_accurate_example :
    (10000 * distance 12069 ≤ 1657 * 12069 + 100)
    × (1657 * 12069 < 10000 * (distance 12069 + 1) + 100)
distance_accurate_example = distance_accurate 12069 (omega arith)

-- an idle period, an echo, and an overflow
abbrev three : List Interrupt3
three =
    record { status = record { update = true; falling = false }; captured = 0 }
    ∷ record { status = record { update = false; falling = true }; captured = 1200 }
    ∷ record { status = record { update = true; falling = true }; captured = 0 }
    ∷ []

three_freerun-IsNumbered : IsNumbered (run (handle3 true) three 1) 1
unfolding all
three_freerun-IsNumbered = freerun-IsNumbered true three 1 refl (omega arith)

-- an echo, one that is too long, two captures in the wrong order, and an overflow
abbrev four : List Interrupt2
four =
    record {
      status = record { update = false; rising = true; falling = true };
      begin = 400;
      end = 1600;
    }
    ∷ record {
      status = record { update = false; rising = true; falling = true };
      begin = 400;
      end = 66400;
    }
    ∷ record {
      status = record { update = false; rising = true; falling = true };
      begin = 9;
      end = 3;
    }
    ∷ record {
      status = record { update = true; rising = true; falling = false };
      begin = 0;
      end = 0;
    }
    ∷ []

four_periodic-IsNumbered : IsNumbered (run (handle2 false) four 1) 1
unfolding all
four_periodic-IsNumbered = periodic-IsNumbered false four 1 refl (omega arith)

echo_is_shown_example :
    (d : ℕ) × (((tim2 false
          (record { update = false; rising = true; falling = true })
          1
          (500 ∷ 1700 ∷ [])).outcome
        ≡ done (record { count = 1 + 1; report = some (line false 1 d 500 1700) }))
      × ((10000 * d ≤ 1657 * (1700 - 500) + 100) × (1657 * (1700 - 500) < 10000 * (d + 1) + 100)))
echo_is_shown_example =
    echo_is_shown false true 1 500 1700 [] (omega arith) (omega arith) (omega arith) (omega arith)

-- an echo of 1 ms
periodic_shows_too_far_example :
    (d d' : ℕ) × (((tim3 true
          (record { update = false; falling = true })
          1
          (ticks (24 * 500) Free.setup_tim3 ∷ [])).outcome
        ≡ done (record { count = 1 + 1; report = some (distance_mm 1 d) }))
      × (((tim2 false
              (record { update = false; rising = true; falling = true })
              1
              (500 ∷ (500 + ticks (24 * 500) Setup.setup_tim2) ∷ [])).outcome
            ≡ done (record { count = 1 + 1; report = some (distance_mm 1 d') }))
          × ((3 * d < 2 * d' + 3) × (2 * d' < 3 * d + 4))))
periodic_shows_too_far_example =
    periodic_shows_too_far true true 1 500 500 [] (omega arith) (omega arith) (omega arith)
