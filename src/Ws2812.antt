-- ===== src/Ws2812.antt =====
-- s06_tim/src/bin/s06c100_ws2812_tim_dma.rs: a WS2812 LED. A frame of 25 compare values goes by DMA1
-- stream 4 to the PWM of TIM3, one value a period; TIM2 starts the next frame, and the interrupt of
-- the finished transfer stops TIM3. The statics COLOR_INDEX and G_CNT are arguments and results of the
-- handlers; the addresses that the linker gives to the tables are the parameter `address`.
pub mod Colors
pub mod Setup
pub mod Settings
pub mod Led
pub mod Frames
pub mod Transfers
mod Tests
use rust_on_stm32_notebook.Common.{
  ℕ, ◌+◌, ◌-◌, ◌%◌, ◌^◌, Bool, true, false, ◌||◌, if◌then◌else◌, List, [], ◌∷◌, length, get_elem?,
  ltb, Option,
}
use rust_on_stm32_notebook.Hardware.{Value, bits, M, pure, fail, write, unwrap, ◌>>=◌, ◌>>◌}
use Colors.{color_list}

-- The fields of RCC, SCB, DBGMCU, GPIOB, DMA1, TIM2 and TIM3 that the program touches.
pub data Field : Type 0 where
  hseon hserdy pllsrc pllm plln pllp pllon pllrdy sw sws_is_pll : Field
  sleep_on_exit dbgmcu_cr dbg_sleep gpioben ospeedr4 pupdr4 afrl4 moder4 : Field
  dma1en stream_en chsel mburst pl msize psize minc dir tcie teie ndt pa m0a : Field
  dmdis feie fth chtif4 ctcif4 cteif4 cfeif4 nvic_dma1_stream4 : Field
  tim3en tim3_arr tim3_dir ccds cc1de cc1s oc1m oc1pe cc1e tim3_cen tim3_cnt : Field
  tim2en tim2_psc tim2_arr tim2_uie tim2_uif nvic_tim2 tim2_cen : Field
  tim2rst tim3rst gpiobrst dma1rst : Field

-- The flags of one read of DMA1_HISR.
pub record Hisr : Type 0 where
  pub teif4 : Bool
  pub feif4 : Bool
  pub tcif4 : Bool

abbrev clear_if : Bool → Field → M Field (Unit {0})
clear_if true f = write ((f, Value.clear) ∷ [])
clear_if false f = pure tt

-- the block of `if teif || feif`, up to its panic
unfoldable pub stop_all : M Field (Unit {0})
stop_all = do
  write ((stream_en, Value.disabled) ∷ [])
  write ((tim2en, Value.disabled) ∷ (tim3en, Value.disabled) ∷ [])
  write ((tim2rst, Value.reset_on) ∷ (tim3rst, Value.reset_on) ∷ [])
  write ((tim2rst, Value.clear_bit) ∷ (tim3rst, Value.clear_bit) ∷ [])
  write ((gpioben, Value.disabled) ∷ (dma1en, Value.disabled) ∷ [])
  write ((gpiobrst, Value.reset_on) ∷ (dma1rst, Value.reset_on) ∷ [])
  write ((gpiobrst, Value.clear_bit) ∷ (dma1rst, Value.clear_bit) ∷ [])

-- the block of `if hisr.tcif4().is_complete()`; the counter of the log wraps
unfoldable pub finish_frame : ℕ → M Field ℕ
finish_frame cnt = do
  write ((chtif4, Value.clear) ∷ (ctcif4, Value.clear) ∷ [])
  write ((cc1de, Value.disabled) ∷ [])
  write ((tim3_cen, Value.disabled) ∷ [])
  write ((tim3_cnt, Value.reset_value) ∷ [])
  write ((tim3en, Value.disabled) ∷ [])
  pure ((cnt + 1) % 2 ^ 32)

unfoldable pub dma1_stream4 : Hisr → ℕ → M Field ℕ
dma1_stream4 hisr cnt = do
  clear_if hisr.teif4 cteif4
  clear_if hisr.feif4 cfeif4
  if hisr.teif4 || hisr.feif4
      then (do stop_all; fail)
      else (if hisr.tcif4 then finish_frame cnt else pure cnt)

-- `if color_index < COLOR_LIST.len() as u8 - 1 { color_index + 1 } else { 0 }`
unfoldable pub next_index : ℕ → ℕ
next_index color_index = if ltb color_index (length color_list - 1) then color_index + 1 else 0

-- the handler TIM2; its result is the new COLOR_INDEX
module _ (address : ℕ → ℕ) where
  unfoldable pub tim2 : ℕ → M Field ℕ
  unfolding next_index
  tim2 color_index = do
    write ((tim2_uif, Value.clear) ∷ [])
    cur_color ← unwrap (get_elem? color_list color_index)
    write ((ndt, bits (length cur_color % 2 ^ 16)) ∷ [])
    write ((m0a, bits (address color_index)) ∷ [])
    write ((stream_en, Value.enabled) ∷ [])
    write ((tim3en, Value.enabled) ∷ [])
    write ((cc1de, Value.enabled) ∷ [])
    write ((tim3_cen, Value.enabled) ∷ [])
    pure (next_index color_index)
