-- ===== src/Ws2812/Settings.antt =====
-- The fields that the handlers of s06_tim/src/bin/s06c100_ws2812_tim_dma.rs leave behind.
use rust_on_stm32_notebook.Common.{
  Bool, true, false, if◌then◌else◌, List, [], ◌∷◌, Option, none, some,
}
use rust_on_stm32_notebook.Hardware.{Value, Effect, modify, sample}
use rust_on_stm32_notebook.Ws2812
use rust_on_stm32_notebook.Ws2812.{
  Field, Hisr, dma1_stream4, stop_all, finish_frame, next_index, tim2,
}

-- The last value that a run gives to the field that a test singles out.
abbrev given : (Field → Bool) → List (Field × Value) → Option Value → Option Value
given test [] last = last
given test ((f, v) ∷ fields) last = given test fields (if test f then some v else last)

abbrev setting_from : (Field → Bool) → Option Value → List (Effect Field) → Option Value
setting_from test last [] = last
setting_from test last (modify fields ∷ t) = setting_from test (given test fields last) t
setting_from test last (sample f v ∷ t) = setting_from test last t

abbrev pub setting : (Field → Bool) → List (Effect Field) → Option Value
setting test t = setting_from test none t

abbrev pub is_ndt : Field → Bool
is_ndt Ws2812.ndt = true
is_ndt _ = false

abbrev pub is_m0a : Field → Bool
is_m0a Ws2812.m0a = true
is_m0a _ = false

abbrev pub is_stream_en : Field → Bool
is_stream_en Ws2812.stream_en = true
is_stream_en _ = false

abbrev pub is_tim2en : Field → Bool
is_tim2en Ws2812.tim2en = true
is_tim2en _ = false

abbrev pub is_tim3en : Field → Bool
is_tim3en Ws2812.tim3en = true
is_tim3en _ = false

abbrev pub is_cc1de : Field → Bool
is_cc1de Ws2812.cc1de = true
is_cc1de _ = false

abbrev pub is_tim3_cen : Field → Bool
is_tim3_cen Ws2812.tim3_cen = true
is_tim3_cen _ = false

abbrev pub is_gpioben : Field → Bool
is_gpioben Ws2812.gpioben = true
is_gpioben _ = false

abbrev pub is_dma1en : Field → Bool
is_dma1en Ws2812.dma1en = true
is_dma1en _ = false
