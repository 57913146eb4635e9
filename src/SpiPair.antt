-- ===== src/SpiPair.antt =====
-- s03_spi/src/bin/s03c02_spi1_to_spi2.rs: the master SPI1 sends one word to the slave SPI2, each by
-- its interrupt handler. The calls of the drivers of the hal crate are the accesses, their results the
-- answers. The statics are `Shared`; what the slave logs is part of its result.
pub mod Wires
pub mod Session
pub mod Arrival
mod Tests
use rust_on_stm32_notebook.Common.{
  ℕ, zero, suc, ◌%◌, ◌^◌, Bool, true, false, not, if◌then◌else◌, List, [], ◌∷◌, Option, none, some,
}
use rust_on_stm32_notebook.Hardware.{
  Value, bits, bit, M, pure, fail, write, read, poll, is_set, when_true, unwrap, ◌>>=◌, ◌>>◌,
}

pub data Field : Type 0 where
  use_hse sysclk split_gpioa split_gpiob cs_pin cs_is_high : Field
  internal_pull_down internal_pull_up : ℕ → Field
  master_mode master_frequency master_frame master_listen_tx_empty : Field
  slave_mode slave_frame slave_listen_rx_not_empty : Field
  priority_spi1 priority_spi2 nvic_spi1 nvic_spi2 : Field
  master_busy master_tx_empty master_send master_sent master_enable master_release : Field
  slave_busy slave_rx_not_empty slave_read slave_enable slave_release : Field

-- G_SPI_MASTER, G_SPI_MASTER_CS and G_SPI_SLAVE by whether they hold something, and G_SENT
pub record Shared : Type 0 where
  pub master : Bool
  pub master_cs : Bool
  pub slave : Bool
  pub sent : Bool

abbrev pub at_start : Shared
at_start = record { master = true; master_cs = true; slave = true; sent = false }

unfoldable pub main : M Field Shared
main = do
  write ((use_hse, bits 12) ∷ (sysclk, bits 64) ∷ [])
  write ((split_gpioa, Value.enabled) ∷ [])
  write ((internal_pull_down 5, bit true) ∷ [])
  write ((internal_pull_down 6, bit true) ∷ [])
  write ((internal_pull_down 7, bit true) ∷ [])
  write ((cs_pin, Value.high) ∷ [])
  write ((master_mode, bits 0) ∷ (master_frequency, bits 1000000) ∷ [])
  write ((master_frame, Value.bits16) ∷ [])
  write ((master_listen_tx_empty, Value.enabled) ∷ [])
  write ((split_gpiob, Value.enabled) ∷ [])
  write ((internal_pull_up 12, bit true) ∷ [])
  write ((slave_mode, bits 0) ∷ [])
  write ((slave_frame, Value.bits16) ∷ [])
  write ((slave_listen_rx_not_empty, Value.enabled) ∷ [])
  write ((priority_spi1, bits 20) ∷ [])
  write ((priority_spi2, bits 10) ∷ [])
  write ((nvic_spi1, Value.unmasked) ∷ [])
  write ((nvic_spi2, Value.unmasked) ∷ [])
  pure at_start

-- `.send(0xFFAA).map(..).unwrap()`: the answer is 0 for an error
unfoldable pub send_word : Shared → M Field Shared
send_word s = do
  write ((master_send, bits 0xFFAA) ∷ [])
  result ← read master_sent
  if is_set result then pure (record s { sent = true }) else fail

-- the block of `if master.is_tx_empty()`
unfoldable pub pull_and_send : Shared → M Field Shared
pull_and_send s = do
  high ← read cs_is_high
  when_true (is_set high) (write ((cs_pin, Value.low) ∷ []))
  send_word s

-- the arm of a master that is there and not busy
unfoldable pub send_if_empty : Shared → M Field Shared
send_if_empty s = do
  empty ← read master_tx_empty
  if is_set empty then if s.master_cs then pull_and_send s else fail else pure s

unfoldable pub release_master : Shared → M Field Shared
release_master s = do
  poll master_busy (λ v. not (is_set v))
  write ((nvic_spi1, Value.masked) ∷ [])
  write ((master_enable, bit false) ∷ [])
  write ((master_release, Value.set_bit) ∷ [])
  pure (record s { master = false })

-- `if G_SENT`: the end of the handler
unfoldable pub finish_master : Shared → M Field Shared
finish_master s = if s.sent then if s.master then release_master s else fail else pure s

unfoldable pub serve_master : Shared → M Field Shared
serve_master s = do
  busy ← read master_busy
  if is_set busy then pure s else (send_if_empty s >>= finish_master)

unfoldable pub spi1 : Shared → M Field Shared
spi1 s =
    if s.master
    then serve_master s
    else (write ((nvic_spi1, Value.masked) ∷ []) >>= λ _. finish_master s)

-- What SPI2 leaves, and the word that it logs.
pub record Received : Type 0 where
  pub shared : Shared
  pub word : ℕ

unfoldable pub release_slave : Shared → M Field Shared
release_slave s = do
  poll slave_busy (λ v. not (is_set v))
  write ((nvic_spi2, Value.masked) ∷ [])
  write ((slave_enable, bit false) ∷ [])
  write ((slave_release, Value.set_bit) ∷ [])
  pure (record s { slave = false })

-- `.read_nonblocking()`: the answer is 0 for an error, and one more than the word read
abbrev pub word_of : ℕ → Option ℕ
word_of zero = none
word_of (suc d) = some (d % 2 ^ 16)

unfoldable pub receive_word : Shared → M Field Received
receive_word s = do
  answer ← read slave_read
  word ← unwrap (word_of answer)
  left ← (if s.sent then release_slave s else pure s)
  pure (record { shared = left; word = word })

unfoldable pub serve_slave : Shared → M Field Received
serve_slave s = do full ← read slave_rx_not_empty; if is_set full then receive_word s else fail

unfoldable pub spi2 : Shared → M Field Received
spi2 s = if s.slave then serve_slave s else fail

pub data Interrupt : Type 0 where
  spi1_comes spi2_comes : Interrupt

-- What a series of interrupts leaves, and the words logged.
pub record After : Type 0 where
  pub shared : Shared
  pub logged : List ℕ

unfoldable pub session : List Interrupt → Shared → M Field After
session [] s = pure (record { shared = s; logged = [] })
session (spi1_comes ∷ next) s = spi1 s >>= session next
session (spi2_comes ∷ next) s = do
  r ← spi2 s
  a ← session next r.shared
  pure (record { shared = a.shared; logged = r.word ∷ a.logged })
