-- ===== src/EchoTerm/Refine.antt =====
-- The interrupt handler of s05_usart/src/bin/s05c02_echo_term.rs against a terminal that keeps only
-- the text of the line.
use rust_on_stm32_notebook.Common.{
  ℕ, zero, suc, ◌+◌, ◌-◌, ◌%◌, ◌^◌, ◌≤◌, ◌<◌, ◌≡◌, ◌==◌, refl, ap, ◌∙◌, List, [], ◌∷◌, ◌++◌, arith,
  length, All, set, take-append, set-append, replicate, if◌then◌else◌, true, false, Bool-cases, inl,
  inr, leb, ltb, length-append, length-replicate,
}
use rust_on_stm32_notebook.Hardware.{done, count_set}
use rust_on_stm32_notebook.EchoTerm.{
  Terminal, TextApi, buf_length, initial, log_line, report, new_line, enter, store_char, on_char,
  usart1, send_line, crlf, colon, prompt,
}
use rust_on_stm32_notebook.EchoTerm.Sending.{
  sent, Sends, pure-Sends, >>=-Sends, send_byte-Sends, send_bytes-Sends,
}

-- The abstract terminal: the text typed on the current line, and the number of the line.
pub record Line : Type 0 where
  pub text : List ℕ
  pub count : ℕ

-- The buffer of a terminal that holds the line: the text, then zeros.
abbrev pub holding : Line → Terminal
holding l = record {
  line_buf = l.text ++ replicate (buf_length - length l.text) 0;
  line_buf_index = length l.text;
  line_count = l.count;
}

abbrev pub IsAscii : List ℕ → Type 0
IsAscii = All (λ b. b < 128)

-- What is documented of `core::str::from_utf8`: ASCII is UTF-8.
abbrev pub AcceptsAscii : TextApi → Type 0
AcceptsAscii api = (bs : List ℕ) → IsAscii bs → api.utf8_ok bs ≡ true

-- A carriage return begins the next line; a full line drops what is typed.
unfoldable pub next : Line → ℕ → Line
next l c =
    if c == 13
    then record { text = []; count = l.count + 1 }
    else (if length l.text == 63 then l else record { text = l.text ++ (c ∷ []); count = l.count })

-- Every character is echoed, and a carriage return answered by the report of the line.
unfoldable pub says : TextApi → Line → ℕ → List ℕ
says api l c = if c == 13 then report api l.count l.text else c ∷ []

next_of_cr :
    (l : Line) (c : ℕ) → (c == 13) ≡ true → next l c ≡ record { text = []; count = l.count + 1 }
unfolding next
next_of_cr l c h = rw h

pub record IsValid (l : Line) : Type 0 where
  pub room : length l.text ≤ 63
  pub ascii : IsAscii l.text
  pub countable : l.count + 1 < 2 ^ 32

replicate-IsAscii : (k : ℕ) → IsAscii (replicate k 0)
replicate-IsAscii zero = tt
replicate-IsAscii (suc k) = (omega arith, replicate-IsAscii k)

pub append-IsAscii : (xs ys : List ℕ) → IsAscii xs → IsAscii ys → IsAscii (xs ++ ys)
append-IsAscii [] ys hx hy = hy
append-IsAscii (x ∷ xs) ys hx hy = (hx.0, append-IsAscii xs ys hx.1 hy)

pub length-line_buf : (l : Line) → length l.text ≤ 63 → length (holding l).line_buf ≡ 64
length-line_buf l h = omega (
  arith,
  length-append l.text (replicate (64 - length l.text) 0),
  length-replicate {A = ℕ} (64 - length l.text) 0,
)

-- The set-up state of the statics holds the empty first line.
pub initial_holds : initial ≡ holding (record { text = []; count = 1 })
unfolding initial
initial_holds = refl

-- Storing a character writes the first zero of the buffer.
pub store_holds :
    (l : Line) (c : ℕ)
    → length l.text < 63
    → let t = holding l in
      record t {
        line_buf = set t.line_buf t.line_buf_index c;
        line_buf_index = t.line_buf_index + 1;
      }
      ≡ holding (record { text = l.text ++ (c ∷ []); count = l.count })
store_holds l c h =
    λ i. record { line_buf = stored i; line_buf_index = counted i; line_count = l.count }
  where
    open l use {text}

    counted : length text + 1 ≡ length (text ++ (c ∷ []))
    counted = omega (arith, length-append text (c ∷ []))

    here : 64 - length text ≡ suc (63 - length text)
    here = omega arith

    left : 63 - length text ≡ 64 - length (text ++ (c ∷ []))
    left = omega (arith, length-append text (c ∷ []))

    stored :
        set (text ++ replicate (64 - length text) 0) (length text) c
        ≡ (text ++ (c ∷ [])) ++ replicate (64 - length (text ++ (c ∷ []))) 0
    stored =
        rw here (
          set-append text (63 - length text) c ∙ ap (λ k. (text ++ (c ∷ [])) ++ replicate k 0) left)

send_line-Sends :
    (l : Line)
    → length l.text ≤ 63
    → Sends (send_line (holding l).line_buf (length l.text)) tt l.text
unfolding send_line
send_line-Sends l h =
    rw (inside, take-append l.text (replicate (64 - length l.text) 0)) (send_bytes-Sends l.text)
  where
    inside : leb (length l.text) (length (holding l).line_buf) ≡ true
    inside = ground (arith, length-line_buf l h)

module _ (api : TextApi) (accepts : AcceptsAscii api) where
  log_line-Sends : (l : Line) → IsAscii l.text → Sends (log_line api (holding l)) (holding l) []
  unfolding log_line
  log_line-Sends l h =
      rw (accepts _ (append-IsAscii l.text _ h (replicate-IsAscii (64 - length l.text))))
        (pure-Sends (holding l))

  store_char-Sends :
      (l : Line) (c : ℕ)
      → IsValid l
      → c < 128
      → (c == 13) ≡ false
      → Sends (store_char api (holding l) c) (holding (next l c)) []
  unfolding store_char next
  store_char-Sends l c v h ne = elim (Bool-cases (length l.text == 63)) [
    | inl full ↦ rw (ne, full) (pure-Sends (holding l))
    | inr free ↦
        let room : ltb (length l.text) (length (holding l).line_buf) ≡ true =
          ground (arith, length-line_buf l v.room) in
        rw (ne, free, room)
          (rw (store_holds l c (ground (arith, v.room))) (
            log_line-Sends (record { text = l.text ++ (c ∷ []); count = l.count })
              (append-IsAscii l.text (c ∷ []) v.ascii (h, tt))))
  ]

  new_line-Sends :
      (l : Line)
      → IsValid l
      → Sends (new_line api (holding l)) (holding (record { text = []; count = l.count + 1 })) []
  unfolding new_line
  new_line-Sends l v =
      rw (fits, length-line_buf l v.room)
        (log_line-Sends (record { text = []; count = l.count + 1 }) tt)
    where
      fits : ltb (l.count + 1) (2 ^ 32) ≡ true
      fits = ground (arith, v.countable)

  enter-Sends :
      (l : Line)
      → IsValid l
      → Sends
          (enter api (holding l))
          (holding (record { text = []; count = l.count + 1 }))
          (report api l.count l.text)
  unfolding enter report
  enter-Sends l v = >>=-Sends _ (send_bytes-Sends crlf) (
      >>=-Sends _ (send_bytes-Sends (api.itoa l.count)) (
        >>=-Sends _ (send_bytes-Sends colon) (
          >>=-Sends _ (send_line-Sends l v.room)
            (>>=-Sends _ (send_bytes-Sends (crlf ++ prompt)) (new_line-Sends l v)))))

  on_char-Sends :
      (l : Line) (c : ℕ)
      → IsValid l
      → c < 128
      → Sends (on_char api (holding l) c) (holding (next l c)) (says api l c)
  unfolding on_char says
  on_char-Sends l c v h = elim (Bool-cases (c == 13)) [
    | inl cr ↦ rw (cr, next_of_cr l c cr) (enter-Sends l v)
    | inr other ↦ rw other (>>=-Sends _ (send_byte-Sends c) (store_char-Sends l c v h other))
  ]

  pub usart1-Sends :
      (l : Line) (status received : ℕ)
      → IsValid l
      → received % 256 < 128
      → Sends
          (λ reads. usart1 api (holding l) (status ∷ received ∷ reads))
          (holding (next l (received % 256)))
          (says api l (received % 256))
  unfolding usart1
  usart1-Sends l status received v h =
      let s = on_char-Sends l (received % 256) v h in
      record { outcome = s.outcome; bytes_sent = s.bytes_sent; uses = s.uses }

  -- One interrupt does to a terminal what its character does to the line of text that it holds, and
  -- sends what the line answers: for every ASCII character, whatever the polls of the transmitter
  -- answer, if it is ready once for each byte to be sent.
  pub usart1_refines :
      (l : Line) (status received : ℕ) (reads : List ℕ)
      → IsValid l
      → received % 256 < 128
      → length (says api l (received % 256)) ≤ count_set reads
      → let r = usart1 api (holding l) (status ∷ received ∷ reads) in
        (r.outcome ≡ done (holding (next l (received % 256))))
        × (sent r.trace ≡ says api l (received % 256))
  usart1_refines l status received reads v h ready =
      let s = usart1-Sends l status received v h in
      (s.outcome reads ready, s.bytes_sent reads ready)
