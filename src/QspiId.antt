-- ===== src/QspiId.antt =====
-- s19_quadspi/src/bin/s19c01_read_flash_id.rs: reading the identifications of a W25Q32 flash chip through the registers
-- of QUADSPI; Quad is s19c02_quad_mode_read_id.rs, Setup what the two share. What is logged is the
-- result.
pub mod Setup
pub mod Quad
pub mod Uid
pub mod Stages
pub mod Single
pub mod Commands
mod Tests
use rust_on_stm32_notebook.Common.{
  ℕ, zero, suc, ◌+◌, ◌*◌, ◌/◌, ◌%◌, ◌^◌, if◌then◌else◌, List, [], ◌∷◌, length, set, ltb, get_elem?,
  Option, none, some,
}
use rust_on_stm32_notebook.Hardware.{
  Value, bits, sample, M, Outcome, done, panic, waiting, pure, fail, write, read, poll, is_set,
  ◌>>=◌, ◌>>◌,
}
use rust_on_stm32_notebook.QspiId.Setup
use rust_on_stm32_notebook.QspiId.Setup.{
  Field, use_hse, setup_gpio, setup_systick, reset_qspi, wait_not_busy, pause,
}

-- `u32::swap_bytes` and `u16::swap_bytes`
abbrev pub swap_bytes32 : ℕ → ℕ
swap_bytes32 n =
    n % 256 * 2 ^ 24 + n / 2 ^ 8 % 256 * 2 ^ 16 + n / 2 ^ 16 % 256 * 2 ^ 8 + n / 2 ^ 24 % 256

abbrev pub swap_bytes16 : ℕ → ℕ
swap_bytes16 n = n % 256 * 256 + n / 256 % 256

abbrev pub cons_word : ℕ → Outcome (List ℕ) → Outcome (List ℕ)
cons_word w (done ws) = done (w ∷ ws)
cons_word w panic = panic
cons_word w waiting = waiting

-- `while busy { rprintln!(.., dr) }`: a round reads the flag and, if it is set, a word; the words.
unfoldable pub log_words : M Field (List ℕ)
log_words [] = record { outcome = waiting; trace = []; rest = [] }
log_words (zero ∷ reads) = record {
  outcome = done [];
  trace = sample Setup.busy zero ∷ [];
  rest = reads;
}
log_words (suc b ∷ []) = record {
  outcome = waiting;
  trace = sample Setup.busy (suc b) ∷ [];
  rest = [];
}
log_words (suc b ∷ w ∷ reads) =
    let more = log_words reads in
    record {
      outcome = cons_word (w % 2 ^ 32) more.outcome;
      trace = sample Setup.busy (suc b) ∷ sample Setup.dr w ∷ more.trace;
      rest = more.rest;
    }

-- `while busy { uid_list[cnt] = dr; cnt += 1; }`: an index out of range panics after the read.
unfoldable pub read_words : ℕ → List ℕ → M Field (List ℕ)
read_words cnt uid_list [] = record { outcome = waiting; trace = []; rest = [] }
read_words cnt uid_list (zero ∷ reads) = record {
  outcome = done uid_list;
  trace = sample Setup.busy zero ∷ [];
  rest = reads;
}
read_words cnt uid_list (suc b ∷ []) = record {
  outcome = waiting;
  trace = sample Setup.busy (suc b) ∷ [];
  rest = [];
}
read_words cnt uid_list (suc b ∷ w ∷ reads) =
    let more = read_words (cnt + 1) (set uid_list cnt (w % 2 ^ 32)) reads in
    if ltb cnt (length uid_list)
    then record {
      outcome = more.outcome;
      trace = sample Setup.busy (suc b) ∷ sample Setup.dr w ∷ more.trace;
      rest = more.rest;
    }
    else record {
      outcome = panic;
      trace = sample Setup.busy (suc b) ∷ sample Setup.dr w ∷ [];
      rest = reads;
    }

-- the number that is logged; the sum of two halves fits u64
abbrev pub uid_of : List ℕ → ℕ
uid_of (w0 ∷ w1 ∷ []) = swap_bytes32 w0 * 2 ^ 32 + swap_bytes32 w1
uid_of _ = 0

unfoldable pub reboot : M Field (Unit {0})
reboot = do
  wait_not_busy
  write ((Setup.imode, bits 1) ∷ (Setup.instruction, bits 0x66) ∷ [])
  wait_not_busy
  write ((Setup.instruction, bits 0x99) ∷ [])
  pause

unfoldable pub read_jedec_id : M Field (List ℕ)
read_jedec_id = do
  wait_not_busy
  write ((Setup.dl, bits 2) ∷ [])
  write ((Setup.fmode, bits 1) ∷ (Setup.dmode, bits 1) ∷ (Setup.instruction, bits 0x9F) ∷ [])
  log_words

unfoldable pub read_uid : M Field ℕ
read_uid = do
  write ((Setup.dl, bits 7) ∷ [])
  write ((Setup.dcyc, bits 32) ∷ (Setup.instruction, bits 0x4B) ∷ [])
  uid_list ← read_words 0 (0 ∷ 0 ∷ [])
  pure (uid_of uid_list)

abbrev pub swap_all : List ℕ → List ℕ
swap_all [] = []
swap_all (w ∷ ws) = swap_bytes16 (w % 65536) ∷ swap_all ws

unfoldable pub read_device_id : M Field (List ℕ)
read_device_id = do
  write ((Setup.dl, bits 1) ∷ [])
  write (
      (Setup.fmode, bits 1)
      ∷ (Setup.imode, bits 1)
      ∷ (Setup.admode, bits 1)
      ∷ (Setup.adsize, bits 1)
      ∷ (Setup.dcyc, bits 8)
      ∷ (Setup.dmode, bits 1)
      ∷ (Setup.instruction, bits 0x90)
      ∷ [])
  write ((Setup.address, bits 0) ∷ [])
  words ← log_words
  pure (swap_all words)

-- What is logged.
pub record Ids : Type 0 where
  pub jedec : List ℕ
  pub uid : ℕ
  pub device : List ℕ

unfoldable pub main : M Field Ids
main = do
  use_hse
  setup_gpio
  setup_systick
  reset_qspi
  write ((Setup.fsize, bits 21) ∷ [])
  write ((Setup.qspi_en, Value.set_bit) ∷ [])
  reboot
  jedec ← read_jedec_id
  uid ← read_uid
  device ← read_device_id
  pure (record { jedec = jedec; uid = uid; device = device })
