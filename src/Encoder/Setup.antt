-- ===== src/Encoder/Setup.antt =====
-- The set-up of s06_tim/src/bin/s06c05_encoder_2int.rs, and the parts that s06c05_encoder_1loop.rs has
-- as well.
use rust_on_stm32_notebook.Common.{[], ◌∷◌}
use rust_on_stm32_notebook.Hardware.{Value, bits, M, write, poll, is_set, ◌>>◌}
use rust_on_stm32_notebook.Encoder
use rust_on_stm32_notebook.Encoder.{Field}

unfoldable pub setup_hse : M Field (Unit {0})
setup_hse = do
  write ((Encoder.hseon, Value.on) ∷ [])
  poll Encoder.hserdy is_set
  write ((Encoder.sw, Value.hse) ∷ [])
  poll Encoder.sws_is_hse is_set

unfoldable pub setup_pins : M Field (Unit {0})
setup_pins = do
  write ((Encoder.gpioaen, Value.enabled) ∷ [])
  write ((Encoder.pupdr0, Value.pull_down) ∷ (Encoder.pupdr1, Value.pull_down) ∷ [])
  write ((Encoder.afrl0, Value.af1) ∷ (Encoder.afrl1, Value.af1) ∷ [])
  write ((Encoder.moder0, Value.alternate) ∷ (Encoder.moder1, Value.alternate) ∷ [])

unfoldable pub setup_inputs : M Field (Unit {0})
setup_inputs = write (
    (Encoder.cc1s, Value.ti1)
    ∷ (Encoder.ic1f, Value.div32_n8)
    ∷ (Encoder.cc2s, Value.ti2)
    ∷ (Encoder.ic2f, bits 15)
    ∷ [])

unfoldable pub setup_edges : M Field (Unit {0})
setup_edges = write (
    (Encoder.cc1p, Value.clear_bit)
    ∷ (Encoder.cc1np, Value.clear_bit)
    ∷ (Encoder.cc2p, Value.clear_bit)
    ∷ (Encoder.cc2np, Value.clear_bit)
    ∷ [])

-- `main` of the interrupt version up to its endless loop
unfoldable pub main : M Field (Unit {0})
main = do
  setup_hse
  setup_pins
  write ((Encoder.tim2en, Value.enabled) ∷ [])
  write ((Encoder.sms, Value.encoder_mode3) ∷ [])
  setup_inputs
  setup_edges
  write ((Encoder.arr, bits 1) ∷ [])
  write ((Encoder.uie, Value.enabled) ∷ [])
  write ((Encoder.cen, Value.enabled) ∷ [])
  write ((Encoder.nvic_tim2, Value.unmasked) ∷ [])
