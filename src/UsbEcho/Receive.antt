-- ===== src/UsbEcho/Receive.antt =====
-- What the loop of s13_usb/src/bin/s13c02_custom_tx_rx_1poll.rs makes of the packets of the host.
use rust_on_stm32_notebook.Common.{
  ℕ, zero, suc, ◌+◌, ◌^◌, ◌≤◌, ◌<◌, ◌==◌, ◌≡◌, refl, ap, ◌∙◌, Bool, true, false, arith, List, [],
  ◌∷◌, ◌++◌, none, some, length, take, take-append, length-drop, drop, leb, ltb, length-append,
}
use rust_on_stm32_notebook.UsbEcho.{
  Result, ok, MyUsbClass, ◌>>=◌, after_write, write, read, receive, endpoint_out, hello, show_read,
  check_write, round,
}

-- A packet at the start of a buffer.
abbrev pub over : List ℕ → List ℕ → List ℕ
over p buf = p ++ drop (length p) buf

length-over : (p buf : List ℕ) → length p ≤ length buf → length (over p buf) ≡ length buf
length-over p buf h =
    omega (arith, length-append p (drop (length p) buf), length-drop (length p) buf)

take-take :
    (m k : ℕ) (xs ys : List ℕ) → m ≤ length xs → m ≤ k → take m (take k xs ++ ys) ≡ take m xs
take-take zero k xs ys h e = refl
take-take (suc m) k [] ys h e = absurd (omega arith)
take-take (suc m) zero (x ∷ xs) ys h e = absurd (omega arith)
take-take (suc m) (suc k) (x ∷ xs) ys h e =
    ap (λ t. x ∷ t) (take-take m k xs ys (omega arith) (omega arith))

-- A class that holds a packet after the given index.
abbrev holds : MyUsbClass → List ℕ → MyUsbClass
holds c p = record c {
  receive_buf = over p c.receive_buf;
  receive_index = c.receive_index + length p;
}

own_address : (a : ℕ) → (a == a) ≡ true
own_address a = ground arith

module _ {E : Type 0} where
  -- What is documented of the endpoint: a packet that fits is put at the start of the buffer, and its
  -- length returned.
  abbrev pub Delivers : (List ℕ → List ℕ × Result E) → List ℕ → Type 0
  Delivers ep p = (buf : List ℕ) → length p ≤ length buf → ep buf ≡ (over p buf, ok (length p))

  endpoint_out-holds :
      (own : ℕ) (ep : List ℕ → List ℕ × Result E) (p : List ℕ) (c : MyUsbClass)
      → Delivers ep p
      → length p ≤ length c.receive_buf
      → c.receive_index + length p < 2 ^ 32
      → endpoint_out own ep own c ≡ some (holds c p)
  unfolding endpoint_out receive
  endpoint_out-holds own ep p c d h k =
      let small : ltb (c.receive_index + length p) (2 ^ 32) ≡ true = ground arith in
      rw (own_address own, d c.receive_buf h, small) refl

  read-holds :
      (p buf : List ℕ) (c : MyUsbClass)
      → c.receive_index ≡ 0
      → 1 ≤ length p
      → length p ≤ length buf
      → length p ≤ length c.receive_buf
      → read {E = E} (holds c p) buf
        ≡ some (
          record c { receive_buf = over p c.receive_buf; receive_index = 0 },
          over p buf,
          ok (length p),
        )
  unfolding read
  read-holds p buf c empty nonempty h k =
      let at_length : c.receive_index + length p ≡ length p = omega arith in
      let some_bytes : ltb 0 (length p) ≡ true = ground arith in
      let fits : leb (length p) (length buf) ≡ true = ground arith in
      let held : leb (length p) (length (over p c.receive_buf)) ≡ true =
        ground (arith, length-over p c.receive_buf k) in
      rw (at_length, some_bytes, fits, held, take-append p (drop (length p) c.receive_buf)) refl

  -- Whether it is accepted or refused, a transfer is under way after "hello" is written.
  hello_under_way :
      (answer : List ℕ → Result E) (n : ℕ) (b : Bool) (rb : List ℕ)
      → answer hello ≡ ok (suc n)
      → check_write
          (write answer hello (record { in_empty = b; receive_buf = rb; receive_index = 0 }))
        ≡ some (record { in_empty = false; receive_buf = rb; receive_index = 0 })
  unfolding write after_write check_write
  hello_under_way answer n true rb h =
      let pos : ltb 0 (suc n) ≡ true = ground arith in rw (h, pos) refl
  hello_under_way answer n false rb h = refl

  -- The rounds of the program start from an empty class, and its buffer has 16 bytes.
  module _ (own : ℕ) (ep : List ℕ → List ℕ × Result E) (answer : List ℕ → Result E)
      (utf8_ok : List ℕ → Bool) (c : MyUsbClass) (buf : List ℕ) where
    -- Where the endpoint delivers packets as documented and accepts "hello" if it is asked: a packet of
    -- 1 to 16 bytes of UTF-8 that reaches an empty class is shown by the next round, whole and alone,
    -- and leaves the class empty again with a transfer under way.
    pub round_shows_packet :
        (p : List ℕ) (n : ℕ)
        → Delivers ep p
        → length c.receive_buf ≡ 32
        → c.receive_index ≡ 0
        → length buf ≡ 16
        → 1 ≤ length p
        → length p ≤ 16
        → utf8_ok p ≡ true
        → answer hello ≡ ok (suc n)
        → (endpoint_out own ep own c >>= λ c'. round utf8_ok answer c' buf)
          ≡ some (record {
            class = record {
              in_empty = false;
              receive_buf = over p c.receive_buf;
              receive_index = 0;
            };
            buffer = over p buf;
            shown = p ∷ [];
          })
    unfolding round show_read
    round_shows_packet p n d room empty size nonempty fits text accepts =
        let arrives : endpoint_out own ep own c ≡ some (holds c p) =
          endpoint_out-holds own ep p c d (omega arith) (omega arith) in
        rw
          (
            arrives,
            read-holds p buf c empty nonempty (omega arith) (omega arith),
            take-append p (drop (length p) buf),
            text,
            hello_under_way answer n c.in_empty (over p c.receive_buf) accepts,
          )
          refl

    -- A packet of 17 to 32 bytes, which the endpoint takes, makes the next round panic.
    pub round_panics_on_long_packet :
        (p : List ℕ)
        → Delivers ep p
        → length c.receive_buf ≡ 32
        → c.receive_index ≡ 0
        → length buf ≡ 16
        → 17 ≤ length p
        → length p ≤ 32
        → (endpoint_out own ep own c >>= λ c'. round utf8_ok answer c' buf) ≡ none
    unfolding round read
    round_panics_on_long_packet p d room empty size long fits =
        let arrives : endpoint_out own ep own c ≡ some (holds c p) =
          endpoint_out-holds own ep p c d (omega arith) (omega arith) in
        let some_bytes : ltb 0 (c.receive_index + length p) ≡ true = ground arith in
        let too_long : leb (c.receive_index + length p) (length buf) ≡ false = ground arith in
        rw (arrives, some_bytes, too_long) refl

  -- Two packets that arrive before the next read, of together at most 16 bytes: the read returns the
  -- sum of their lengths, but the bytes begin with the second packet, which has overwritten the first.
  pub second_packet_overwrites :
      (own : ℕ) (ep ep' : List ℕ → List ℕ × Result E) (c : MyUsbClass) (p q buf : List ℕ)
      → Delivers ep p
      → Delivers ep' q
      → length c.receive_buf ≡ 32
      → c.receive_index ≡ 0
      → length buf ≡ 16
      → 1 ≤ length p
      → length p + length q ≤ 16
      → (out : List ℕ) × (left : MyUsbClass) × ((endpoint_out own ep own c >>= λ c'.
            endpoint_out own ep' own c' >>= λ c''. read {E = E} c'' buf)
          ≡ some (left, out, ok (length p + length q)))
        × (take (length q) out ≡ q)
  unfolding read
  second_packet_overwrites own ep ep' c p q buf d d' room empty size nonempty fits =
      let first : endpoint_out own ep own c ≡ some (holds c p) =
        endpoint_out-holds own ep p c d (omega arith) (omega arith) in
      let same : length (over p c.receive_buf) ≡ length c.receive_buf =
        length-over p c.receive_buf (omega arith) in
      let second : endpoint_out own ep' own (holds c p) ≡ some (holds (holds c p) q) =
        endpoint_out-holds own ep' q (holds c p) d' (omega arith) (omega arith) in
      let both = over q (over p c.receive_buf) in
      let sum : c.receive_index + length p + length q ≡ length p + length q = omega arith in
      let some_bytes : ltb 0 (length p + length q) ≡ true = ground arith in
      let in_buffer : leb (length p + length q) (length buf) ≡ true = ground arith in
      let long : length both ≡ 32 =
        length-over q (over p c.receive_buf) (omega arith) ∙ same ∙ room in
      let in_class : leb (length p + length q) (length both) ≡ true = ground arith in
      (
        take (length p + length q) both ++ drop (length p + length q) buf,
        record c { receive_buf = both; receive_index = 0 },
        rw (first, second, sum, some_bytes, in_buffer, in_class) refl,
        take-take (length q) (length p + length q) both (drop (length p + length q) buf)
              (omega arith) (omega arith)
            ∙ take-append q (drop (length q) (over p c.receive_buf)),
      )
