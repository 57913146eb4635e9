-- ===== src/MemCopy/Tests.antt =====
-- The components' theorems at concrete inputs.
use rust_on_stm32_notebook.Common.{ℕ, ◌≡◌, true, Bool, List, [], ◌∷◌, ◌==◌, ◌/◌, ◌%◌}
use rust_on_stm32_notebook.Hardware.Monitor.{respects}
use rust_on_stm32_notebook.MemCopy
use rust_on_stm32_notebook.MemCopy.Flash2mem
use rust_on_stm32_notebook.MemCopy.Guard.{
  unknown, stream_after, stream_allowed, copies_configure_stopped,
}

-- the flags of stream 0 as the reference manual places them in LISR
abbrev bit0 : ℕ → Bool
bit0 v = v % 2 == 1

abbrev bit3 : ℕ → Bool
bit3 v = v / 8 % 2 == 1

abbrev bit4 : ℕ → Bool
bit4 v = v / 16 % 2 == 1

abbrev bit5 : ℕ → Bool
bit5 v = v / 32 % 2 == 1

-- the stream runs at first; then nothing, half, and both flags
abbrev some_answers : List ℕ
some_answers = 1 ∷ 1 ∷ 0 ∷ 0 ∷ 16 ∷ 48 ∷ []

copies_configure_stopped_example :
    (respects stream_after stream_allowed unknown
        (MemCopy.main bit0 bit4 bit5 0x08000000 0x20000000 some_answers).trace
      ≡ true)
    × (respects stream_after stream_allowed unknown
          (Flash2mem.main 0x08000000 0x20000000 some_answers).trace
        ≡ true)
copies_configure_stopped_example =
    copies_configure_stopped bit0 bit4 bit5 0x08000000 0x20000000 some_answers
