-- ===== src/Ws2812/Frames.antt =====
-- What the LED of s06_tim/src/bin/s06c100_ws2812_tim_dma.rs shows, frame after frame.
use rust_on_stm32_notebook.Common.{
  ℕ, zero, suc, ◌+◌, ◌%◌, ◌<◌, ◌≡◌, refl, List, [], arith, some, length, get_elem?,
}
use rust_on_stm32_notebook.Hardware.{Value, bits, Effect, Outcome, done}
use rust_on_stm32_notebook.Ws2812.{Field, next_index, tim2}
use rust_on_stm32_notebook.Ws2812.Colors.{
  turn_off, dim_green, dim_red, dim_blue, dim_yellow, dim_cran, dim_magenta, dim_white, color_list,
}
use rust_on_stm32_notebook.Ws2812.Settings.{
  setting, is_ndt, is_m0a, is_stream_en, is_tim3en, is_cc1de, is_tim3_cen,
}
use rust_on_stm32_notebook.Ws2812.Led.{led, palette}

-- What one interrupt of TIM2 sets going for the frame at index `i`.
pub record Starts (address : ℕ → ℕ) (i : ℕ) (t : List (Effect Field)) : Type 0 where
  pub count : setting is_ndt t ≡ some (bits 25)
  pub source : setting is_m0a t ≡ some (bits (address i))
  pub transfer : setting is_stream_en t ≡ some Value.enabled
  pub clock : setting is_tim3en t ≡ some Value.enabled
  pub request : setting is_cc1de t ≡ some Value.enabled
  pub counter : setting is_tim3_cen t ≡ some Value.enabled

-- The table at each index: 25 periods, and the colour that it is named after.
frame_at :
    (i : ℕ)
    → i < 8
    → (frame : List ℕ) × (get_elem? color_list i ≡ some frame)
      × (length frame ≡ 25)
      × (led frame ≡ get_elem? palette i)
unfolding led
frame_at zero h = (turn_off, refl, refl, refl)
frame_at (suc zero) h = (dim_green, refl, refl, refl)
frame_at (suc (suc zero)) h = (dim_red, refl, refl, refl)
frame_at (suc (suc (suc zero))) h = (dim_blue, refl, refl, refl)
frame_at (suc (suc (suc (suc zero)))) h = (dim_yellow, refl, refl, refl)
frame_at (suc (suc (suc (suc (suc zero))))) h = (dim_cran, refl, refl, refl)
frame_at (suc (suc (suc (suc (suc (suc zero)))))) h = (dim_magenta, refl, refl, refl)
frame_at (suc (suc (suc (suc (suc (suc (suc zero))))))) h = (dim_white, refl, refl, refl)
frame_at (suc (suc (suc (suc (suc (suc (suc (suc i)))))))) h = absurd (omega arith)

next_index_lem : (i : ℕ) → i < 8 → next_index i ≡ (i + 1) % 8
unfolding next_index
next_index_lem i h = ground arith

pub tim2_shows :
    (address : ℕ → ℕ) (i : ℕ) (reads : List ℕ)
    → i < 8
    → let r = tim2 address i reads in
      (frame : List ℕ) × (r.outcome ≡ done ((i + 1) % 8))
      × Starts address i r.trace
      × (get_elem? color_list i ≡ some frame)
      × (led frame ≡ get_elem? palette i)
unfolding tim2
tim2_shows address i reads h =
    let (frame, found, full, color) = frame_at i h in
    (
      frame,
      rw (found, next_index_lem i h) refl,
      rw (found, full)
          (record {
            count = refl;
            source = refl;
            transfer = refl;
            clock = refl;
            request = refl;
            counter = refl;
          }),
      found,
      color,
    )

-- The index after an interrupt.
abbrev index_after : ℕ → Outcome ℕ → ℕ
index_after i (done j) = j
index_after i _ = i

-- The index after n interrupts.
unfoldable pub rotate : (ℕ → ℕ) → ℕ → ℕ → ℕ
rotate address zero i = i
rotate address (suc n) i = rotate address n (index_after i (tim2 address i []).outcome)

-- The frames come in turn: after n interrupts the index has gone n places round the eight tables.
pub rotate_lem : (address : ℕ → ℕ) (n i : ℕ) → i < 8 → rotate address n i ≡ (i + n) % 8
unfolding rotate
rotate_lem address zero i h = omega arith
rotate_lem address (suc n) i h =
    let (frame, ends, starts, found, color) = tim2_shows address i [] h in
    rw ends (omega (arith, rotate_lem address n ((i + 1) % 8) (omega arith)))
