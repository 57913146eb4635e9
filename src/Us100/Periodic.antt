-- ===== src/Us100/Periodic.antt =====
-- The handler of s06_tim/src/bin/s06c04_us100_driver_02periodic.rs, whose timer also triggers the
-- sensor and so is never reset: the time is the difference of two captures.
use rust_on_stm32_notebook.Common.{
  ℕ, ◌-◌, ◌%◌, ◌^◌, Bool, true, false, if◌then◌else◌, [], ◌∷◌, none, some, ltb,
}
use rust_on_stm32_notebook.Hardware.{Value, M, pure, write, read, ◌>>=◌, ◌>>◌}
use rust_on_stm32_notebook.Us100.{
  Field, ccr, uif, cc3if, cc4if, timer_overflow, distance_mm, measured, out_of_order, After,
  distance, next_count,
}

-- The flags that TIM2 looks at.
pub record Status : Type 0 where
  pub update : Bool
  pub rising : Bool
  pub falling : Bool

unfoldable pub tim2_update : Bool → Status → ℕ → M Field After
tim2_update debug s count = do
  write ((uif, Value.clear) ∷ [])
  if s.rising
      then (do
        write ((cc3if, Value.clear_bit) ∷ [])
        next_count debug count (some (timer_overflow count)))
      else pure (record { count = count; report = none })

-- the branch of two captures in order; a release build drops a distance that the sensor cannot
-- measure
unfoldable pub show_interval : Bool → ℕ → ℕ → ℕ → M Field After
show_interval true count begin end =
    let dist = distance (end - begin) in
    next_count true count (some (measured count dist begin end (end - begin)))
show_interval false count begin end =
    let dist = distance (end - begin) in
    if ltb 4500 dist
    then pure (record { count = count; report = none })
    else next_count false count (some (distance_mm count dist))

-- `if begin > end { .. } else { .. }`
unfoldable pub measure : Bool → ℕ → ℕ → ℕ → M Field After
measure debug count begin end =
    if ltb end begin
    then next_count debug count (some (out_of_order count begin end))
    else show_interval debug count begin end

unfoldable pub tim2_capture : Bool → ℕ → M Field After
tim2_capture debug count = do
  write ((cc4if, Value.clear) ∷ [])
  begin ← read (ccr 3)
  end ← read (ccr 4)
  measure debug count (begin % 2 ^ 32) (end % 2 ^ 32)

unfoldable pub tim2 : Bool → Status → ℕ → M Field After
tim2 debug s count =
    if s.update
    then tim2_update debug s count
    else (if s.falling then tim2_capture debug count else next_count debug count none)
