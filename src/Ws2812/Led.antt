-- ===== src/Ws2812/Led.antt =====
-- How a WS2812 LED reads the compare values that s06_tim/src/bin/s06c100_ws2812_tim_dma.rs sends it.
use rust_on_stm32_notebook.Common.{
  ℕ, zero, suc, ◌+◌, ◌*◌, if◌then◌else◌, List, [], ◌∷◌, Option, none, some, ltb,
}

-- A colour as the LED takes it: green, red, blue.
pub record Color : Type 0 where
  pub green : ℕ
  pub red : ℕ
  pub blue : ℕ

-- The LED reads a period as 1 if the line is high for more than half of the 25 ticks.
abbrev pub led_bit : ℕ → ℕ
led_bit ticks = if ltb 12 ticks then 1 else 0

-- Eight periods, the highest bit first, onto the number read so far.
abbrev pub led_byte : ℕ → ℕ → List ℕ → Option (ℕ × List ℕ)
led_byte zero acc rest = some (acc, rest)
led_byte (suc n) acc [] = none
led_byte (suc n) acc (t ∷ ts) = led_byte n (acc * 2 + led_bit t) ts

-- A frame that the LED accepts: three bytes, then a line that stays low.
abbrev pub led_low : Color → List ℕ → Option Color
led_low c (zero ∷ []) = some c
led_low c _ = none

abbrev pub led_blue : ℕ → ℕ → Option (ℕ × List ℕ) → Option Color
led_blue g r none = none
led_blue g r (some (b, ts)) = led_low (record { green = g; red = r; blue = b }) ts

abbrev pub led_red : ℕ → Option (ℕ × List ℕ) → Option Color
led_red g none = none
led_red g (some (r, ts)) = led_blue g r (led_byte 8 0 ts)

abbrev pub led_green : Option (ℕ × List ℕ) → Option Color
led_green none = none
led_green (some (g, ts)) = led_red g (led_byte 8 0 ts)

unfoldable pub led : List ℕ → Option Color
led frame = led_green (led_byte 8 0 frame)

-- The colours that the tables are named after, at the brightness 2.
abbrev pub palette : List Color
palette =
    record { green = 0; red = 0; blue = 0 }
    ∷ record { green = 2; red = 0; blue = 0 }
    ∷ record { green = 0; red = 2; blue = 0 }
    ∷ record { green = 0; red = 0; blue = 2 }
    ∷ record { green = 2; red = 2; blue = 0 }
    ∷ record { green = 2; red = 0; blue = 2 }
    ∷ record { green = 0; red = 2; blue = 2 }
    ∷ record { green = 2; red = 2; blue = 2 }
    ∷ []
