-- ===== src/Lcd/Script.antt =====
-- The phases of the two programs of s11_lcd1602 (pauses on SysTick and waits for an idle display),
-- and what they mean to send.
use rust_on_stm32_notebook.Common.{
  ℕ, ◌+◌, ◌*◌, ◌/◌, ◌%◌, ◌≡◌, refl, arith, true, false, List, [], ◌∷◌,
}
use rust_on_stm32_notebook.Hardware.Laws.{Polled}
use rust_on_stm32_notebook.Lcd.{count_flag}
use rust_on_stm32_notebook.Lcd.Panel.{Latch}

-- What the hardware answers to a program that pauses and waits, in its order.
pub data Phase : Type 0 where
  pause wait : Phase

-- `Waits` relates the answers before and after a wait.
pub data Plays (Waits : List ℕ → List ℕ → Type 0) : List Phase → List ℕ → List ℕ → Type 0 where
  over : {rest : List ℕ} → Plays Waits [] rest rest
  paused :
      {phases : List Phase} {reads mid rest : List ℕ}
      → Polled count_flag reads mid
      → Plays Waits phases mid rest
      → Plays Waits (pause ∷ phases) reads rest
  waited :
      {phases : List Phase} {reads mid rest : List ℕ}
      → Waits reads mid
      → Plays Waits phases mid rest
      → Plays Waits (wait ∷ phases) reads rest

-- Characters, and what the display takes for them.
abbrev pub characters : List ℕ → List Latch
characters [] = []
characters (c ∷ cs) = record { rs = true; bus = c } ∷ characters cs

abbrev pub command : ℕ → Latch
command c = record { rs = false; bus = c }

abbrev pub phases_of : List ℕ → List Phase
phases_of [] = []
phases_of (_ ∷ cs) = pause ∷ wait ∷ phases_of cs

abbrev pub start_up : List Phase
start_up = pause ∷ pause ∷ wait ∷ wait ∷ wait ∷ wait ∷ []

-- A byte goes over PB4 to PB7 as two nibbles, the high one first.
abbrev pub nibbles_of : List Latch → List Latch
nibbles_of [] = []
nibbles_of (l ∷ ls) =
    record { rs = l.rs; bus = l.bus / 16 } ∷ record { rs = l.rs; bus = l.bus % 16 } ∷ nibbles_of ls

-- The display in its 4-bit mode joins each two nibbles.
unfoldable pub pair_up : List Latch → List Latch
pair_up [] = []
pair_up (l ∷ []) = []
pair_up (h ∷ (l ∷ ls)) = record { rs = h.rs; bus = h.bus * 16 + l.bus } ∷ pair_up ls

pub pair_up-nibbles_of : (ls : List Latch) → pair_up (nibbles_of ls) ≡ ls
unfolding pair_up
pair_up-nibbles_of [] = refl
pair_up-nibbles_of (l ∷ ls) = λ i. record { rs = l.rs; bus = joined i } ∷ pair_up-nibbles_of ls i
  where
    joined : l.bus / 16 * 16 + l.bus % 16 ≡ l.bus
    joined = omega arith
