-- ===== src/Encoder/Polling.antt =====
-- s06_tim/src/bin/s06c05_encoder_1loop.rs: the timer counts from 0 to 15 by itself, and the loop shows
-- its counter and its direction.
use rust_on_stm32_notebook.Common.{ℕ, zero, suc, Bool, List, [], ◌∷◌}
use rust_on_stm32_notebook.Hardware.{Value, bits, M, pure, write, read, is_set, ◌>>=◌, ◌>>◌}
use rust_on_stm32_notebook.Encoder
use rust_on_stm32_notebook.Encoder.{Field}
use rust_on_stm32_notebook.Encoder.Setup.{setup_hse, setup_pins, setup_inputs, setup_edges}

-- A line of the log: the counter, and whether it counts down.
pub record Shown : Type 0 where
  pub count : ℕ
  pub down : Bool

unfoldable pub show_count : M Field Shown
show_count = do
  count ← read Encoder.cnt
  direction ← read Encoder.dir
  pure (record { count = count; down = is_set direction })

-- the given number of rounds of the endless loop
unfoldable pub show_rounds : ℕ → M Field (List Shown)
show_rounds zero = pure []
show_rounds (suc rounds) = do line ← show_count; lines ← show_rounds rounds; pure (line ∷ lines)

unfoldable pub main : ℕ → M Field (List Shown)
main rounds = do
  setup_hse
  setup_pins
  write ((Encoder.tim2en, Value.enabled) ∷ [])
  setup_inputs
  setup_edges
  write ((Encoder.sms, Value.encoder_mode3) ∷ [])
  write ((Encoder.arr, bits 15) ∷ [])
  write ((Encoder.cnt, bits 7) ∷ [])
  write ((Encoder.cen, Value.enabled) ∷ [])
  show_rounds rounds
