-- ===== src/Lib.antt =====
-- A verification library for the STM32F4 notebook: the programs of the repository that drive a
-- protocol or keep a state between interrupts. Every program is a binary of its own, which talks to
-- the hardware through registers and to nothing else of the repository; the two LCD1602 programs
-- share the drivers under s11_lcd1602/src/bin/utils.
--
-- Common and Common/* hold the numbers, lists and tests of all parts. Hardware models register
-- access: a program is a function of the answers that the hardware gives to its reads, and returns
-- an outcome (done, panic, or waiting for more answers) and the trace of its accesses. Statics that
-- handlers mutate are passed in and returned. A theorem about every list of answers is so one about
-- every behaviour of the hardware.
--
-- EchoTerm models s05_usart/src/bin/s05c02_echo_term.rs: `Terminal` is its three statics,
--   `usart1` the handler USART1 and `on_char` its match; Setup is main and its set-up. Sending says
--   which bytes reach the data register, Refine and Session relate the handler to a line of text,
--   and Utf8 is about bytes that are not ASCII.
-- Lcd models s11_lcd1602/src/bin: Pin8 is utils/mode_8pin and s11c01_lcd1602_8pin_mode.rs, Pin4 is
--   utils/mode_4pin and s11c02_lcd1602_4pin_mode.rs, and `delay` is utils/common.rs. Panel is the
--   display's side of the wires: it takes the bus at each falling edge of E with RW low, sees only the
--   control lines that the controller drives, and remembers a write to a port without its clock. Driver
--   and Idle compose accesses for any width of bus, Byte and Nibble are the two widths, and Display8
--   and Display4 are about the whole programs.
-- Breath models s06_tim/src/bin/s06c03_led_breath.rs: `tim3` is the handler TIM3, `turn` its match.
-- Rtc models s07_rtc/src/bin/s07c02_rtc_across_reset.rs: `exti17_rtc_alarm` is its alarm handler,
--   Setup the set-up, Protection the write protection of the registers, Digits the decoding.
-- Ws2812 models s06_tim/src/bin/s06c100_ws2812_tim_dma.rs: `tim2` and `dma1_stream4` are its
--   handlers, Colors its tables, Setup main and its set-up, Led what the LED reads, Frames and
--   Transfers the two handlers.
-- Dac models s20_dac/src/bin/s20c01_2sin_wave.rs and its table wave_data/mod.rs: `next_sample` is a
--   round of the loop; Setup is main, for a number of rounds, and the set-up; Wave the samples.
-- UsbEcho models s13_usb/src/bin/s13c02_custom_tx_rx_1poll.rs: `MyUsbClass` is its class, `round` the
--   body of the second loop of main, and the endpoints of the USB stack are parameters. Receive is
--   about the packets of the host, Transmit about the writes.
-- I2c models s04_i2c/src/bin/s04c01_i2c1_to_i2c2.rs: `i2c1_evt` and `i2c3_ev` are the event handlers
--   of the master and of the slave, Setup is main and its set-up with utils/setup_pll.rs. Sending and
--   Receiving are about the two sides, Session puts them together.
-- Rtc.Basic models s07_rtc/src/bin/s07c01_rtc_basic_setup.rs with the fields, the lock and the decoding
--   of Rtc; BasicGuard is about its write protection.
-- Flash models s19_quadspi/src/bin/s19c03_read_wirte_with_hal.rs by its calls of the Qspi driver, with
--   the answers given. Busy is about the waits, Identity about the check of the chip.
-- Us100 models s06_tim/src/bin/s06c04_us100_driver_01freerun.rs (`tim3`, Setup.Free) and
--   s06c04_us100_driver_02periodic.rs (Periodic, Setup), and their f32 arithmetic. Distance is about
--   that, Numbering and Runs about the log lines, Range about which echoes are
--   logged and how the distances of the two programs compare.
-- SpiDma models s08_dma/src/bin/s08c02_spi_slave_read_dma.rs: `spi1` and `dma1_stream3` are its
--   handlers, Setup main and its set-up. Sending is about the bytes sent, Guard about the order of the
--   set-up, with Hardware.Monitor, which follows a trace by a rule of the hardware.
-- WinUsb models s13_usb/src/bin/s13c04_1winusb_1device_level.rs, PerFunction
--   s13c04_1winusb_2per_function.rs and WebUsb s13s04_2webusb.rs: the descriptors and the functions that
--   answer with them. Host is the other side of the bus, Found puts them together.
-- Clock models five programs of s01_rcc/src/bin: `main` is s01c100_pll_0pac.rs, Rearranged
--   s01c100_pll_1rearranged.rs, Outputs s01c101_pll_mco_0pac.rs with s01c02_export_hsi_hse_clock.rs, and
--   Raw s01c01_basic_0addr.rs, which reaches registers by their addresses. Guard is about the order of
--   the switch to the PLL, Waits about what is counted, Source about the field that Raw reads.
-- Encoder models s06_tim/src/bin/s06c05_encoder_2int.rs (`tim2`, Setup) and s06c05_encoder_1loop.rs
--   (Polling). Net is about the number that the handler keeps.
-- QspiId models s19_quadspi/src/bin/s19c01_read_flash_id.rs and, in Quad, s19c02_quad_mode_read_id.rs;
--   Setup is what they share. Stages, Single and Commands are about when commands are given, Uid about
--   the number that is put together.
-- SpiPair models s03_spi/src/bin/s03c02_spi1_to_spi2.rs: `spi1` and `spi2` are its handlers, `Shared` its
--   statics. Wires and Session are about any series of interrupts, with Hardware.Ensures, Arrival about
--   the way of the word.
-- MemCopy models s08_dma/src/bin/s08c01_mem2mem_01polling.rs (`start` and `watch` are its main) and, in
--   Flash2mem, s08c01_mem2mem_02flash2mem.rs. Guard is about the order of the set-up, Watching compares
--   the loop with the handler.
-- UartTx models s05_usart/src/bin/s05c01_tx.rs: `tim2` is its handler, Setup main and its set-up. Lines is
--   about what is sent, with Hardware.Sending.
-- DacDma models s20_dac/src/bin/s20c01_3with_dma.rs; Guard is about the order of its set-up.
-- Adc models s09_adc/src/bin/s09c01_adc_basic_setup.rs: `adc` is its handler, Setup main and its set-up.
--   Voltage is about the f32 arithmetic, Numbers about the lines, Guard about the order of the set-up.
-- Watchdog models s16_watchdog/src/bin/s16c02_wwdg.rs and, in Independent, s16c01_iwdg.rs. Dog is what the two
--   watchdogs make of the writes and of the time, Window and Timeout put them together.
-- Systick models s10_systick/src/bin/s10c01_systick_basic_setup.rs and, in Exception, s10c02_systick_exp.rs.
--   Counting is about the numbers of both.
--
-- Bounds and fuel: a machine integer is a natural number, with `%` where the source casts or wraps
-- and the outcome panic where a sum overflows in a debug build. A wait for a flag recurs on the
-- answers of the hardware. The wait for an idle display is given one more round than there are
-- answers: each round reads at least once, so that no run ends for lack of rounds; the wait of QspiId
-- for an idle chip likewise. A counted wait of Clock panics where its u32 would overflow. Rounding to f32
-- doubles the weight of the last bit at most 40 times, which is enough below 2 ^ 64, and the products
-- that it is applied to are below 2 ^ 56. A raw value of the ADC is doubled at most 12 times, which brings
-- any but 0 to 4095. The host walks at most five levels and parts of a set.
--
-- Not modelled: the hardware itself, apart from what the display, the LED, the USB host and the
-- watchdogs make of what reaches them; the log output, apart from what can panic in it and from the
-- values that a result holds in Us100, I2c, Flash, Clock, Encoder, QspiId, SpiPair, Systick and Adc; the
-- crates
-- behind the registers and their drivers, the text formatting, the UTF-8 check, the flash driver and
-- the USB stack, which are parameters or are left out; the text of `expect`; and the programs that are
-- not named above.
pub mod Common
pub mod Hardware
pub mod Adc
pub mod Breath
pub mod Clock
pub mod Dac
pub mod DacDma
pub mod EchoTerm
pub mod Encoder
pub mod Flash
pub mod I2c
pub mod Lcd
pub mod MemCopy
pub mod QspiId
pub mod Rtc
pub mod SpiDma
pub mod SpiPair
pub mod Systick
pub mod UartTx
pub mod Us100
pub mod UsbEcho
pub mod Watchdog
pub mod WinUsb
pub mod Ws2812
