-- ===== src/UsbEcho/Transmit.antt =====
-- How the class of s13_usb/src/bin/s13c02_custom_tx_rx_1poll.rs hands data to its IN endpoint.
use rust_on_stm32_notebook.Common.{
  ℕ, suc, inl, inr, Bool-cases, ◌+◌, ◌≤◌, ◌==◌, true, arith, List, [], ◌∷◌, if◌then◌else◌,
}
use rust_on_stm32_notebook.UsbEcho.{
  Result, ok, err, MyUsbClass, after_write, write, endpoint_in_complete,
}

-- What happens to the sending side: the program writes, and the endpoint answers as it does if the
-- class asks it; or the bus reports that a transfer from an address is complete.
pub data Event (E : Type 0) : Type 0 where
  send : List ℕ → (List ℕ → Result E) → Event E
  complete : ℕ → Event E

module _ {E : Type 0} where
  abbrev pub is_ok : Result E → ℕ
  is_ok (ok n) = 1
  is_ok (err e) = 0

  -- The writes that were accepted in a run, with the class's own address.
  unfoldable pub accepted : ℕ → MyUsbClass → List (Event E) → ℕ
  accepted own c [] = 0
  accepted own c (send bytes answer ∷ es) =
      let w = write answer bytes c in is_ok w.1 + accepted own w.0 es
  accepted own c (complete addr ∷ es) = accepted own (endpoint_in_complete own addr c) es

  -- The reports for the own address.
  abbrev pub completions : ℕ → List (Event E) → ℕ
  completions own [] = 0
  completions own (send bytes answer ∷ es) = completions own es
  completions own (complete addr ∷ es) =
      let more = completions own es in if addr == own then suc more else more

-- The transfers that the class would accept at once.
abbrev pub room : MyUsbClass → ℕ
room c = if c.in_empty then 1 else 0

module _ {E : Type 0} where
  asked_once :
      (c : MyUsbClass) (r : Result E) → is_ok (after_write c r).1 + room (after_write c r).0 ≤ 1
  unfolding after_write
  asked_once c (err e) = ground arith
  asked_once c (ok n) = ground arith

  write_once :
      (answer : List ℕ → Result E) (bytes : List ℕ) (c : MyUsbClass)
      → is_ok (write answer bytes c).1 + room (write answer bytes c).0 ≤ room c
  unfolding write
  write_once answer bytes c = elim (Bool-cases c.in_empty) [
    | inl h ↦ rw h (asked_once (record c { in_empty = true }) (answer bytes))
    | inr h ↦ rw h (omega arith)
  ]

  -- In every run the class accepts at most one write more than the transfers that were completed: a
  -- packet is never handed over while the one before is under way, whatever the endpoint answers.
  pub one_in_flight :
      (own : ℕ) (c : MyUsbClass) (es : List (Event E))
      → accepted own c es ≤ completions own es + room c
  unfolding accepted endpoint_in_complete
  one_in_flight own c [] = omega arith
  one_in_flight own c (send bytes answer ∷ es) =
      omega (arith, write_once answer bytes c, one_in_flight own (write answer bytes c).0 es)
  one_in_flight own c (complete addr ∷ es) =
      ground (arith, one_in_flight own c es, one_in_flight own (record c { in_empty = true }) es)
