-- ===== src/Flash.antt =====
-- s19_quadspi/src/bin/s19c03_read_wirte_with_hal.rs: erasing, writing and reading a W25Q32 flash chip
-- through the Qspi driver of stm32f4xx-hal, which is not part of the repository. A program is modelled
-- by its calls of the driver: each reading call, and each question whether the driver is busy, is
-- given the next answer. An answer is cut or filled up with zeros to the length of the buffer.
pub mod Busy
pub mod Identity
mod Tests
use rust_on_stm32_notebook.Common.{
  ℕ, zero, suc, ◌+◌, ◌*◌, ◌/◌, ◌%◌, ◌==◌, Bool, true, false, if◌then◌else◌, List, [], ◌∷◌, ◌++◌,
  Option, none, some, not,
}
use rust_on_stm32_notebook.Hardware.{Outcome, done, panic, waiting}

-- `QspiMode`
pub data Channel : Type 0 where
  single_channel quad_channel : Channel

-- What `QspiReadCommand` and `QspiWriteCommand` are built from; the instruction always goes over a
-- single channel.
pub record Command : Type 0 where
  pub instruction : ℕ
  pub address : Option (ℕ × Channel)
  pub alternate_bytes : Option (List ℕ × Channel)
  pub dummy_cycles : ℕ
  pub payload : List ℕ
  pub channel : Channel

abbrev pub plain : ℕ → Command
plain i = record {
  instruction = i;
  address = none;
  alternate_bytes = none;
  dummy_cycles = 0;
  payload = [];
  channel = single_channel;
}

-- The answers of the driver: bytes, an error, or whether it is busy.
pub data Reply : Type 0 where
  bytes : List ℕ → Reply
  failed : Reply
  busy : Bool → Reply

-- A call with its answer.
pub data Call : Type 0 where
  indirect_read : Command → Reply → Call
  indirect_write : Command → Reply → Call
  is_busy : Bool → Call
  delay_ms : ℕ → Call

pub record Run (A : Type 0) : Type 0 where
  pub outcome : Outcome A
  pub trace : List Call
  pub rest : List Reply

abbrev pub M : Type 0 → Type 0
M A = List Reply → Run A

abbrev pub pure : {A : Type 0} → A → M A
pure a replies = record { outcome = done a; trace = []; rest = replies }

abbrev pub fail : {A : Type 0} → M A
fail replies = record { outcome = panic; trace = []; rest = replies }

abbrev pub chain : {A B : Type 0} → Outcome A → List Call → List Reply → (A → M B) → Run B
chain (done a) t rest f =
    let r = f a rest in record { outcome = r.outcome; trace = t ++ r.trace; rest = r.rest }
chain panic t rest f = record { outcome = panic; trace = t; rest = rest }
chain waiting t rest f = record { outcome = waiting; trace = t; rest = rest }

infixl 5 ◌>>=◌ ◌>>◌
abbrev pub ◌>>=◌ : {A B : Type 0} → M A → (A → M B) → M B
◌>>=◌ m f replies = let r = m replies in chain r.outcome r.trace r.rest f

abbrev pub ◌>>◌ : {B : Type 0} → M (Unit {0}) → M B → M B
m >> k = m >>= λ _. k

abbrev pub fill : ℕ → List ℕ → List ℕ
fill zero bs = []
fill (suc n) [] = 0 ∷ fill n []
fill (suc n) (b ∷ bs) = (b % 256) ∷ fill n bs

-- `qspi.indirect_read(..).unwrap()` into a buffer of n bytes
abbrev pub read_command : ℕ → Command → M (List ℕ)
read_command n c [] = record { outcome = waiting; trace = []; rest = [] }
read_command n c (bytes bs ∷ replies) = record {
  outcome = done (fill n bs);
  trace = indirect_read c (bytes bs) ∷ [];
  rest = replies;
}
read_command n c (r ∷ replies) = record {
  outcome = panic;
  trace = indirect_read c r ∷ [];
  rest = replies;
}

-- `qspi.indirect_write(..).unwrap()`
abbrev pub write_command : Command → M (Unit {0})
write_command c [] = record { outcome = waiting; trace = []; rest = [] }
write_command c (bytes bs ∷ replies) = record {
  outcome = done tt;
  trace = indirect_write c (bytes bs) ∷ [];
  rest = replies;
}
write_command c (r ∷ replies) = record {
  outcome = panic;
  trace = indirect_write c r ∷ [];
  rest = replies;
}

abbrev pub pause_ms : ℕ → M (Unit {0})
pause_ms n replies = record { outcome = done tt; trace = delay_ms n ∷ []; rest = replies }

abbrev pub head : List ℕ → ℕ
head [] = 0
head (b ∷ bs) = b

-- `while qspi.is_busy() {}`
unfoldable pub driver_idle : M (Unit {0})
driver_idle [] = record { outcome = waiting; trace = []; rest = [] }
driver_idle (busy b ∷ replies) =
    let more = driver_idle replies in
    if b
    then record { outcome = more.outcome; trace = is_busy true ∷ more.trace; rest = more.rest }
    else record { outcome = done tt; trace = is_busy false ∷ []; rest = replies }
driver_idle (r ∷ replies) = record { outcome = waiting; trace = []; rest = r ∷ replies }

unfoldable pub reboot_w25q32 : M (Unit {0})
reboot_w25q32 = do write_command (plain 0x66); write_command (plain 0x99); pause_ms 50

abbrev at_zero : ℕ → Channel → Command
at_zero i channel = record (plain i) { address = some (0, channel) }

-- The comparison of `check_w25q32_id`; the sum of two bytes fits u16.
unfoldable pub is_w25q32 : List ℕ → Bool
is_w25q32 (b0 ∷ b1 ∷ []) = b0 * 256 + b1 == 0xEF15
is_w25q32 _ = false

unfoldable pub check_w25q32_id : M (Unit {0})
check_w25q32_id = do
  buf ← read_command 2 (at_zero 0x90 single_channel)
  if is_w25q32 buf then pure tt else fail

-- The loop of `wait_w25q32_not_busy`: one answer a round.
unfoldable pub wait_w25q32_not_busy : M (Unit {0})
wait_w25q32_not_busy [] = record { outcome = waiting; trace = delay_ms 1 ∷ []; rest = [] }
wait_w25q32_not_busy (bytes bs ∷ replies) =
    let more = wait_w25q32_not_busy replies in
    let status = indirect_read (plain 0x05) (bytes bs) in
    if head (fill 1 bs) % 2 == 0
    then record { outcome = done tt; trace = delay_ms 1 ∷ status ∷ []; rest = replies }
    else record {
      outcome = more.outcome;
      trace = delay_ms 1 ∷ status ∷ more.trace;
      rest = more.rest;
    }
wait_w25q32_not_busy (r ∷ replies) = record {
  outcome = panic;
  trace = delay_ms 1 ∷ indirect_read (plain 0x05) r ∷ [];
  rest = replies;
}

-- `buf[0] | 0b10`
abbrev pub with_quad_bit : ℕ → ℕ
with_quad_bit b = if b / 2 % 2 == 1 then b else b + 2

-- the block of `if buf[0] >> 1 & 1 == 0`
unfoldable pub set_quad_bit : ℕ → M (Unit {0})
set_quad_bit b = do
  write_command (plain 0x50)
  wait_w25q32_not_busy
  write_command (record (plain 0x31) { payload = with_quad_bit b ∷ [] })
  wait_w25q32_not_busy
  buf ← read_command 1 (plain 0x35)
  if head buf / 2 % 2 == 1 then pure tt else fail

unfoldable pub enable_quad_mode : M (Unit {0})
enable_quad_mode = do
  buf ← read_command 1 (plain 0x35)
  if head buf / 2 % 2 == 0 then set_quad_bit (head buf) else pure tt

-- the block of `if buf[0] >> 1 == 0`
unfoldable pub set_write_enable : M (Unit {0})
set_write_enable = do
  write_command (plain 0x06)
  wait_w25q32_not_busy
  buf ← read_command 1 (plain 0x05)
  if head buf / 2 == 1 then pure tt else fail

unfoldable pub enable_write : M (Unit {0})
enable_write = do
  buf ← read_command 1 (plain 0x05)
  if head buf / 2 == 0 then set_write_enable else pure tt

-- the three reads of the first eight bytes, and the sector erase and the page program
unfoldable pub read_page : M (List ℕ)
read_page = read_command 8 (record {
  instruction = 0xEB;
  address = some (0, quad_channel);
  alternate_bytes = some (0xFF ∷ [], quad_channel);
  dummy_cycles = 4;
  payload = [];
  channel = quad_channel;
})

unfoldable pub erase_sector : M (Unit {0})
erase_sector = write_command (at_zero 0x20 single_channel)

abbrev pub new_data : List ℕ
new_data = 1 ∷ 2 ∷ 3 ∷ 4 ∷ 5 ∷ 6 ∷ 7 ∷ 8 ∷ []

unfoldable pub program_page : M (Unit {0})
program_page =
    write_command
      (record (at_zero 0x32 single_channel) { payload = new_data; channel = quad_channel })

-- The three buffers that the program logs.
pub record Shown : Type 0 where
  pub before : List ℕ
  pub erased : List ℕ
  pub written : List ℕ

-- `main` from the first `is_busy` on, up to its endless loop
unfoldable pub main : M Shown
main = do
  driver_idle
  reboot_w25q32
  check_w25q32_id
  enable_quad_mode
  before ← read_page
  enable_write
  erase_sector
  wait_w25q32_not_busy
  erased ← read_page
  enable_write
  program_page
  wait_w25q32_not_busy
  written ← read_page
  pure (record { before = before; erased = erased; written = written })
