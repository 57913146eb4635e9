-- ===== src/Us100.antt =====
-- s06_tim/src/bin/s06c04_us100_driver_01freerun.rs and s06c04_us100_driver_02periodic.rs: two drivers
-- of an ultrasonic distance sensor, which holds the wire Echo high for the time of flight. A timer
-- captures its counter at the edges of Echo. The flags that a handler reads from SR at its head are
-- its argument, the static G_CNT is its argument and result, and the log line is a result too.
pub mod Distance
pub mod Numbering
pub mod Setup
pub mod Periodic
pub mod Runs
pub mod Range
mod Tests
use rust_on_stm32_notebook.Common.{
  ℕ, zero, suc, ◌+◌, ◌-◌, ◌*◌, ◌/◌, ◌%◌, ◌^◌, ◌==◌, Bool, true, false, not, ◌&&◌, ◌||◌,
  if◌then◌else◌, List, [], ◌∷◌, Option, none, some, leb, ltb,
}
use rust_on_stm32_notebook.Hardware.{Value, bits, M, pure, fail, write, read, ◌>>=◌, ◌>>◌}

-- The fields that the two programs touch.
pub data Field : Type 0 where
  hseon hserdy sw sws_is_hse dbg_tim2_stop dbg_tim3_stop tim2en tim3en : Field
  gpioaen gpioben afrl5 afrl6 afrh10 pupdr5 pupdr6 pupdr10 moder5 moder6 moder10 : Field
  psc arpe arr cnt dir uie ccmr1 ccmr2 oc1m ts ece sms cen nvic_tim2 nvic_tim3 : Field
  ccs icf icpsc ccp ccnp cce ccie ccr : ℕ → Field
  uif cc1if cc2if cc3if cc4if : Field

-- The log lines: an overflow, a distance in mm, the distance with the times it comes from, and two
-- times that are in the wrong order. The first number is the line's own.
pub data Report : Type 0 where
  timer_overflow : ℕ → Report
  distance_mm : ℕ → ℕ → Report
  measured : ℕ → ℕ → ℕ → ℕ → ℕ → Report
  out_of_order : ℕ → ℕ → ℕ → Report

-- What a handler leaves in G_CNT, and its log line.
pub record After : Type 0 where
  pub count : ℕ
  pub report : Option Report

-- The arithmetic of f32 on integers below 2 ^ 64: the weight of the last of 24 bits, and rounding to
-- a multiple of it, ties to even.
unfoldable pub weight : ℕ → ℕ → ℕ → ℕ
weight zero u n = u
weight (suc fuel) u n = let more = weight fuel (2 * u) n in if ltb n (u * 2 ^ 24) then u else more

abbrev pub nearest : ℕ → ℕ → ℕ → ℕ
nearest u q r = if ltb (2 * r) u || (2 * r == u && q % 2 == 0) then q * u else q * u + u

unfoldable pub round_f32 : ℕ → ℕ
round_f32 n = let u = weight 40 1 n in nearest u (n / u) (n % u)

-- 0.3314 as f32 is 11119939 / 2 ^ 25.
abbrev pub speed_of_sound : ℕ
speed_of_sound = 11119939

-- `(n as f32 / 2.0 * 0.3314) as u16`: the halving is exact, and the cast saturates.
unfoldable pub distance : ℕ → ℕ
distance n =
    let mm = round_f32 (round_f32 n * speed_of_sound) / 2 ^ 26 in if ltb mm 65536 then mm else 65535

-- `G_CNT.borrow(cs).set(count + 1)` on u32, with or without the checks of a debug build
unfoldable pub next_count : Bool → ℕ → Option Report → M Field After
next_count debug count report =
    if ltb (count + 1) (2 ^ 32)
    then pure (record { count = count + 1; report = report })
    else if debug
    then fail
    else pure (record { count = 0; report = report })

-- The flags that TIM3 looks at.
pub record Status : Type 0 where
  pub update : Bool
  pub falling : Bool

-- the branch of the update flag
unfoldable pub tim3_update : Bool → Status → ℕ → M Field After
tim3_update debug s count = do
  write ((uif, Value.clear) ∷ [])
  if s.falling
      then (do
        write ((cc1if, Value.clear_bit) ∷ [])
        next_count debug count (some (timer_overflow count)))
      else pure (record { count = count; report = none })

-- the branch of the capture; CCR2 of TIM3 has 16 bits
unfoldable pub tim3_capture : Bool → ℕ → M Field After
tim3_capture debug count = do
  write ((cc2if, Value.clear) ∷ [])
  end ← read (ccr 2)
  write ((cnt, bits 0) ∷ [])
  next_count debug count (some (distance_mm count (distance (end % 65536))))

-- The handler of the free-running driver.
unfoldable pub tim3 : Bool → Status → ℕ → M Field After
tim3 debug s count =
    if s.update
    then tim3_update debug s count
    else (if s.falling then tim3_capture debug count else next_count debug count none)
