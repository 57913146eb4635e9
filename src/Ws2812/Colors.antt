-- ===== src/Ws2812/Colors.antt =====
-- The frames of s06_tim/src/bin/s06c100_ws2812_tim_dma.rs: compare values of the PWM for the 24 bits
-- of a colour (green, red, blue, each from the highest bit), and a last period that stays low.
use rust_on_stm32_notebook.Common.{ℕ, List, [], ◌∷◌}

abbrev pub n0 : ℕ
n0 = 8

abbrev pub n1 : ℕ
n1 = 16

abbrev pub turn_off : List ℕ
turn_off =
    n0 ∷ n0 ∷ n0 ∷ n0 ∷ n0 ∷ n0 ∷ n0 ∷ n0 ∷ n0 ∷ n0 ∷ n0 ∷ n0 ∷ n0 ∷ n0 ∷ n0 ∷ n0 ∷ n0 ∷ n0 ∷ n0
    ∷ n0 ∷ n0 ∷ n0 ∷ n0 ∷ n0 ∷ 0 ∷ []

abbrev pub dim_green : List ℕ
dim_green =
    n0 ∷ n0 ∷ n0 ∷ n0 ∷ n0 ∷ n0 ∷ n1 ∷ n0 ∷ n0 ∷ n0 ∷ n0 ∷ n0 ∷ n0 ∷ n0 ∷ n0 ∷ n0 ∷ n0 ∷ n0 ∷ n0
    ∷ n0 ∷ n0 ∷ n0 ∷ n0 ∷ n0 ∷ 0 ∷ []

abbrev pub dim_red : List ℕ
dim_red =
    n0 ∷ n0 ∷ n0 ∷ n0 ∷ n0 ∷ n0 ∷ n0 ∷ n0 ∷ n0 ∷ n0 ∷ n0 ∷ n0 ∷ n0 ∷ n0 ∷ n1 ∷ n0 ∷ n0 ∷ n0 ∷ n0
    ∷ n0 ∷ n0 ∷ n0 ∷ n0 ∷ n0 ∷ 0 ∷ []

abbrev pub dim_blue : List ℕ
dim_blue =
    n0 ∷ n0 ∷ n0 ∷ n0 ∷ n0 ∷ n0 ∷ n0 ∷ n0 ∷ n0 ∷ n0 ∷ n0 ∷ n0 ∷ n0 ∷ n0 ∷ n0 ∷ n0 ∷ n0 ∷ n0 ∷ n0
    ∷ n0 ∷ n0 ∷ n0 ∷ n1 ∷ n0 ∷ 0 ∷ []

abbrev pub dim_yellow : List ℕ
dim_yellow =
    n0 ∷ n0 ∷ n0 ∷ n0 ∷ n0 ∷ n0 ∷ n1 ∷ n0 ∷ n0 ∷ n0 ∷ n0 ∷ n0 ∷ n0 ∷ n0 ∷ n1 ∷ n0 ∷ n0 ∷ n0 ∷ n0
    ∷ n0 ∷ n0 ∷ n0 ∷ n0 ∷ n0 ∷ 0 ∷ []

abbrev pub dim_cran : List ℕ
dim_cran =
    n0 ∷ n0 ∷ n0 ∷ n0 ∷ n0 ∷ n0 ∷ n1 ∷ n0 ∷ n0 ∷ n0 ∷ n0 ∷ n0 ∷ n0 ∷ n0 ∷ n0 ∷ n0 ∷ n0 ∷ n0 ∷ n0
    ∷ n0 ∷ n0 ∷ n0 ∷ n1 ∷ n0 ∷ 0 ∷ []

abbrev pub dim_magenta : List ℕ
dim_magenta =
    n0 ∷ n0 ∷ n0 ∷ n0 ∷ n0 ∷ n0 ∷ n0 ∷ n0 ∷ n0 ∷ n0 ∷ n0 ∷ n0 ∷ n0 ∷ n0 ∷ n1 ∷ n0 ∷ n0 ∷ n0 ∷ n0
    ∷ n0 ∷ n0 ∷ n0 ∷ n1 ∷ n0 ∷ 0 ∷ []

abbrev pub dim_white : List ℕ
dim_white =
    n0 ∷ n0 ∷ n0 ∷ n0 ∷ n0 ∷ n0 ∷ n1 ∷ n0 ∷ n0 ∷ n0 ∷ n0 ∷ n0 ∷ n0 ∷ n0 ∷ n1 ∷ n0 ∷ n0 ∷ n0 ∷ n0
    ∷ n0 ∷ n0 ∷ n0 ∷ n1 ∷ n0 ∷ 0 ∷ []

abbrev pub color_list : List (List ℕ)
color_list =
    turn_off ∷ dim_green ∷ dim_red ∷ dim_blue ∷ dim_yellow ∷ dim_cran ∷ dim_magenta ∷ dim_white ∷ []
