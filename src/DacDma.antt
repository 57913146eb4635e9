-- ===== src/DacDma.antt =====
-- s20_dac/src/bin/s20c01_3with_dma.rs: a timer triggers the DAC, which has a DMA stream fetch the samples of
-- wave_data/mod.rs. The addresses of the table and of DHR12R1 are parameters; `stored` is a mark for
-- `G_DP.replace(dp)`. Log lines are left out.
pub mod Setup
pub mod Guard
mod Tests
use rust_on_stm32_notebook.Common.{Bool, [], ◌∷◌}
use rust_on_stm32_notebook.Hardware.{Value, M, write, when_true, ◌>>=◌, ◌>>◌}

pub data Field : Type 0 where
  hseon hserdy pllsrc pllm plln pllp pwren vos pllon vosrdy pllrdy : Field
  latency dcen icen prften ppre1 sw sws_is_pll gpioaen moder4 : Field
  dma1en stream_en chsel dir circ msize mburst minc psize pinc dmdis fth m0ar pa ndt : Field
  cteif5 cfeif5 teie feie nvic_dma1_stream5 : Field
  dacen tsel1 ten1 dmaen1 dmaudrie1 nvic_dac tim2en mms arr stored en1 cen dmaudr1 : Field

-- TIM6_GLB_IT_DAC1_DAC2
unfoldable pub tim6_glb_it_dac1_dac2 : M Field (Unit {0})
tim6_glb_it_dac1_dac2 = write ((dmaudr1, Value.no_underrun) ∷ [])

-- The flags that DMA1_STREAM5 looks at.
pub record Hisr : Type 0 where
  pub transfer_error : Bool
  pub fifo_error : Bool

unfoldable pub dma1_stream5 : Hisr → M Field (Unit {0})
dma1_stream5 s = do
  when_true s.transfer_error (write ((cteif5, Value.clear) ∷ []))
  when_true s.fifo_error (write ((cfeif5, Value.clear) ∷ []))
