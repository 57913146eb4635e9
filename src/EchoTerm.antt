-- ===== src/EchoTerm.antt =====
-- s05_usart/src/bin/s05c02_echo_term.rs: a line terminal on USART1. Every byte received raises the
-- interrupt, which echoes it and collects it in a line buffer; a carriage return reports the line.
-- The statics G_LINE_BUF, G_LINE_BUF_INDEX and G_LINE_COUNT are the fields of `Terminal`; a handler
-- that mutates them returns the new record. Panics are the outcome `panic`: indices out of range,
-- overflow of the counter (a debug build), and the UTF-8 check of the logged buffer.
pub mod Setup
pub mod Sending
pub mod Refine
pub mod Session
pub mod Utf8
mod Tests
use rust_on_stm32_notebook.Common.{
  ℕ, ◌+◌, ◌-◌, ◌%◌, ◌^◌, ◌==◌, Bool, true, false, if◌then◌else◌, List, [], ◌∷◌, ◌++◌, Option, none,
  some, length, take, set, replicate, leb, ltb,
}
use rust_on_stm32_notebook.Hardware.{
  Value, bits, M, pure, fail, write, read, poll, ◌>>=◌, ◌>>◌, is_set,
}

-- The registers and fields of USART1, RCC and GPIOA that the program touches. `sws_is_hse` is the
-- test `sws().is_hse()`.
pub data Field : Type 0 where
  sr txe dr : Field
  hseon hserdy sw sws_is_hse gpioaen usart1en : Field
  afrh9 afrh10 pupdr9 moder9 moder10 : Field
  ue m ps pce stop div_mantissa div_fraction rxneie re te : Field
  nvic_usart1 : Field

abbrev pub buf_length : ℕ
buf_length = 64

pub record Terminal : Type 0 where
  pub line_buf : List ℕ
  pub line_buf_index : ℕ
  pub line_count : ℕ

unfoldable pub initial : Terminal
initial = record { line_buf = replicate buf_length 0; line_buf_index = 0; line_count = 1 }

-- What the handler calls and the repository does not hold: `core::str::from_utf8(..).is_ok()` and
-- the decimal text of crate `itoa`.
pub record TextApi : Type 0 where
  pub utf8_ok : List ℕ → Bool
  pub itoa : ℕ → List ℕ

-- `while serial1.sr.read().txe().bit_is_clear() {}`, then the write of the data register
unfoldable pub send_byte_to_usart1 : ℕ → M Field (Unit {0})
send_byte_to_usart1 byte = do poll txe is_set; write ((dr, bits byte) ∷ [])

unfoldable pub send_bytes_to_usart1 : List ℕ → M Field (Unit {0})
send_bytes_to_usart1 [] = pure tt
send_bytes_to_usart1 (b ∷ bs) = send_byte_to_usart1 b >> send_bytes_to_usart1 bs

-- `"\r\n"`, `": "`, `"\r\n>>> "` and `">>> "`
abbrev pub crlf : List ℕ
crlf = 13 ∷ 10 ∷ []

abbrev pub colon : List ℕ
colon = b':' ∷ 32 ∷ []

abbrev pub prompt : List ℕ
prompt = b'>' ∷ b'>' ∷ b'>' ∷ 32 ∷ []

-- `send_bytes_to_usart1(serial1, &buf[0..buf_index])`: a slice out of range panics
unfoldable pub send_line : List ℕ → ℕ → M Field (Unit {0})
send_line buf index = if leb index (length buf) then send_bytes_to_usart1 (take index buf) else fail

unfoldable pub prepare_echo_term : M Field (Unit {0})
prepare_echo_term = send_bytes_to_usart1 prompt

module _ (api : TextApi) where
  -- `rprintln!("{:?}", core::str::from_utf8(buf).unwrap())` at the end of the handler
  unfoldable pub log_line : Terminal → M Field Terminal
  log_line t = if api.utf8_ok t.line_buf then pure t else fail

  -- The text that a carriage return sends before the new line is begun.
  unfoldable pub report : ℕ → List ℕ → List ℕ
  report line_cnt line = crlf ++ (api.itoa line_cnt ++ (colon ++ (line ++ (crlf ++ prompt))))

  -- the arm `b'\r'` after its sending: the index, the buffer and the counter
  unfoldable pub new_line : Terminal → M Field Terminal
  new_line t =
      if ltb (t.line_count + 1) (2 ^ 32)
      then log_line (record {
        line_buf = replicate (length t.line_buf) 0;
        line_buf_index = 0;
        line_count = t.line_count + 1;
      })
      else fail

  -- the arm `b'\r'`
  unfoldable pub enter : Terminal → M Field Terminal
  enter t = do
    send_bytes_to_usart1 crlf
    send_bytes_to_usart1 (api.itoa t.line_count)
    send_bytes_to_usart1 colon
    send_line t.line_buf t.line_buf_index
    send_bytes_to_usart1 (crlf ++ prompt)
    new_line t

  -- the other arm after its echo: a full line returns at once
  unfoldable pub store_char : Terminal → ℕ → M Field Terminal
  store_char t cur_char =
      if t.line_buf_index == buf_length - 1
      then pure t
      else (if ltb t.line_buf_index (length t.line_buf)
          then log_line (record t {
            line_buf = set t.line_buf t.line_buf_index cur_char;
            line_buf_index = t.line_buf_index + 1;
          })
          else fail)

  -- the match on the byte received
  unfoldable pub on_char : Terminal → ℕ → M Field Terminal
  on_char t cur_char =
      if cur_char == 13 then enter t else (do send_byte_to_usart1 cur_char; store_char t cur_char)

  -- the interrupt handler: the status register is read to clear its flags, then the data register
  unfoldable pub usart1 : Terminal → M Field Terminal
  usart1 t = do status ← read sr; received ← read dr; on_char t (received % 256)
