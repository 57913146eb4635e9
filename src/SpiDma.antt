-- ===== src/SpiDma.antt =====
-- s08_dma/src/bin/s08c02_spi_slave_read_dma.rs: the master SPI1 sends eight bytes by interrupts, the
-- slave SPI2 has them stored by a DMA stream. The static INDEX is the argument and the result of the
-- handler of SPI1; the flags of LISR are the argument of the DMA handler. Addresses are parameters.
pub mod Setup
pub mod Sending
pub mod Guard
mod Tests
use rust_on_stm32_notebook.Common.{
  ℕ, ◌+◌, ◌-◌, ◌%◌, Bool, true, false, if◌then◌else◌, List, [], ◌∷◌, length, get_elem?, leb,
}
use rust_on_stm32_notebook.Hardware.{
  Value, bits, M, pure, fail, write, when_true, unwrap, ◌>>=◌, ◌>>◌,
}

pub data Field : Type 0 where
  dma1rst dma1en stream_en dir chsel mburst minc msize pburst pinc psize tcie teie : Field
  dmdis feie fth pa m0a ndt hifcr lifcr cfeif3 cteif3 chtif3 ctcif3 : Field
  gpioaen afrl4 afrl5 afrl6 afrl7 afrh9 afrh10 afrh11 afrh12 : Field
  moder4 moder5 moder6 moder7 moder9 moder10 moder11 moder12 : Field
  spi1en spi2en : Field
  mstr spe : ℕ → Field
  rxdmaen ssm ssi txeie ssoe spi1_dr nvic_spi1 nvic_dma1_stream3 : Field

abbrev pub src_list : List ℕ
src_list = 10 ∷ 11 ∷ 12 ∷ 13 ∷ 14 ∷ 15 ∷ 16 ∷ 17 ∷ []

abbrev pub list_len : ℕ
list_len = length src_list

unfoldable pub disable_master : M Field (Unit {0})
disable_master = do write ((spi1en, Value.disabled) ∷ []); write ((nvic_spi1, Value.masked) ∷ [])

-- The handler of SPI1; `fetch_add` on a u8 wraps.
unfoldable pub spi1 : ℕ → M Field ℕ
spi1 cur_index = do
  cur_data ← unwrap (get_elem? src_list cur_index)
  write ((spi1_dr, bits cur_data) ∷ [])
  when_true (leb (list_len - 1) cur_index) disable_master
  pure ((cur_index + 1) % 256)

-- The flags that DMA1_STREAM3 looks at.
pub record DmaStatus : Type 0 where
  pub fifo_error : Bool
  pub transfer_error : Bool
  pub half : Bool
  pub complete : Bool

unfoldable pub transfer_completed : M Field (Unit {0})
transfer_completed = do
  write ((ctcif3, Value.clear) ∷ [])
  write ((nvic_dma1_stream3, Value.masked) ∷ [])
  write ((dma1en, Value.disabled) ∷ [])
  write ((spi2en, Value.disabled) ∷ [])

unfoldable pub dma1_stream3 : DmaStatus → M Field (Unit {0})
dma1_stream3 s = do
  when_true s.fifo_error (do write ((cfeif3, Value.clear) ∷ []); fail)
  when_true s.transfer_error (do write ((cteif3, Value.clear) ∷ []); fail)
  when_true s.half (write ((chtif3, Value.clear) ∷ []))
  when_true s.complete transfer_completed
