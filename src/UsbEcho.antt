-- ===== src/UsbEcho.antt =====
-- s13_usb/src/bin/s13c02_custom_tx_rx_1poll.rs: a USB class with one IN and one OUT endpoint, and the
-- loop that logs what the host sends and answers "hello". The endpoints belong to crate usb_device,
-- which is not part of the repository: what their `read` and `write` return, and what `read` leaves
-- in the buffer, are parameters, and so are the addresses. A panic is `none`.
pub mod Receive
pub mod Transmit
mod Tests
use rust_on_stm32_notebook.Common.{
  ℕ, ◌+◌, ◌^◌, ◌==◌, Bool, true, false, if◌then◌else◌, List, [], ◌∷◌, ◌++◌, Option, none, some,
  length, take, drop, replicate, leb, ltb, ◌&&◌,
}

-- `UsbError`: the source names WouldBlock, and E stands for the other variants.
pub data UsbError (E : Type 0) : Type 0 where
  would_block : UsbError E
  other : E → UsbError E

pub data Result (E : Type 0) : Type 0 where
  ok : ℕ → Result E
  err : UsbError E → Result E

pub record MyUsbClass : Type 0 where
  pub in_empty : Bool
  pub receive_buf : List ℕ
  pub receive_index : ℕ

-- the fields of `MyUSBClass::new` other than the endpoints
unfoldable pub new : MyUsbClass
new = record { in_empty = true; receive_buf = replicate 32 0; receive_index = 0 }

infixl 5 ◌>>=◌
abbrev pub ◌>>=◌ : {A B : Type 0} → Option A → (A → Option B) → Option B
none >>= f = none
(some a) >>= f = f a

module _ {E : Type 0} where
  -- the `match` arm `true` of `write`: an error of the endpoint is passed on by `?`
  unfoldable pub after_write : MyUsbClass → Result E → MyUsbClass × Result E
  after_write c (err e) = (c, err e)
  after_write c (ok byte_written) =
      if ltb 0 byte_written
      then (record c { in_empty = false }, ok byte_written)
      else (c, err would_block)

  unfoldable pub write : (List ℕ → Result E) → List ℕ → MyUsbClass → MyUsbClass × Result E
  write interrupt_in_write bytes c =
      if c.in_empty then after_write c (interrupt_in_write bytes) else (c, err would_block)

  -- `read`: the class, the caller's buffer and the result. Either slice may be out of range.
  unfoldable pub read : MyUsbClass → List ℕ → Option (MyUsbClass × List ℕ × Result E)
  read c buf =
      if ltb 0 c.receive_index
      then (if leb c.receive_index (length buf) && leb c.receive_index (length c.receive_buf)
          then some (
            record c { receive_index = 0 },
            take c.receive_index c.receive_buf ++ drop c.receive_index buf,
            ok c.receive_index,
          )
          else none)
      else some (c, buf, err would_block)

  -- `let index = interrupt_out.read(&mut self.receive_buf).unwrap(); self.receive_index += index`
  unfoldable pub receive : MyUsbClass → List ℕ × Result E → Option MyUsbClass
  receive c (buf, err e) = none
  receive c (buf, ok index) =
      if ltb (c.receive_index + index) (2 ^ 32)
      then some (record c { receive_buf = buf; receive_index = c.receive_index + index })
      else none

  unfoldable pub endpoint_out :
      ℕ → (List ℕ → List ℕ × Result E) → ℕ → MyUsbClass → Option MyUsbClass
  endpoint_out own_addr interrupt_out_read addr c =
      if addr == own_addr then receive c (interrupt_out_read c.receive_buf) else some c

unfoldable pub endpoint_in_complete : ℕ → ℕ → MyUsbClass → MyUsbClass
endpoint_in_complete own_addr addr c = if addr == own_addr then record c { in_empty = true } else c

-- `b"hello"`
abbrev pub hello : List ℕ
hello = b'h' ∷ b'e' ∷ b'l' ∷ b'l' ∷ b'o' ∷ []

-- What one round of the second loop of main leaves, and the texts that it logs.
pub record Round : Type 0 where
  pub class : MyUsbClass
  pub buffer : List ℕ
  pub shown : List (List ℕ)

module _ {E : Type 0} where
  -- `match my_usb_class.write(b"hello")`
  unfoldable pub check_write : MyUsbClass × Result E → Option MyUsbClass
  check_write (c, ok count) = some c
  check_write (c, err would_block) = some c
  check_write (c, err (other e)) = none

module _ {E : Type 0} (utf8_ok : List ℕ → Bool) where
  -- `match my_usb_class.read(..)`
  unfoldable pub show_read : List ℕ → Result E → Option (List (List ℕ))
  show_read buf (ok count) = if utf8_ok (take count buf) then some (take count buf ∷ []) else none
  show_read buf (err would_block) = some []
  show_read buf (err (other e)) = none

  -- a round in which the poll reports that there is something to do
  unfoldable pub round : (List ℕ → Result E) → MyUsbClass → List ℕ → Option Round
  round interrupt_in_write c buf = do
    (class, buffer, result) ← read {E = E} c buf
    shown ← show_read buffer result
    class' ← check_write (write interrupt_in_write hello class)
    some (record { class = class'; buffer = buffer; shown = shown })
