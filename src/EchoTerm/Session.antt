-- ===== src/EchoTerm/Session.antt =====
-- Whole sessions at the terminal of s05_usart/src/bin/s05c02_echo_term.rs: the interrupt handler
-- run for one received byte after another.
use rust_on_stm32_notebook.Common.{
  ℕ, ◌+◌, ◌%◌, ◌^◌, ◌≤◌, ◌<◌, ◌≡◌, ◌≢◌, ◌==◌, refl, ap, ◌∙◌, List, [], ◌∷◌, ◌++◌, arith, length,
  All, inl, inr, Bool-cases, length-append, append-nil, append_assoc,
}
use rust_on_stm32_notebook.Hardware.{M, done, pure, ◌>>=◌, count_set}
use rust_on_stm32_notebook.EchoTerm.{Field, Terminal, TextApi, initial, report, usart1}
use rust_on_stm32_notebook.EchoTerm.Sending.{sent, Sends, pure-Sends, >>=-Sends}
use rust_on_stm32_notebook.EchoTerm.Refine.{
  Line, holding, next, says, IsValid, AcceptsAscii, usart1-Sends, initial_holds, append-IsAscii,
}

-- Interrupts in a row, each with the answer of the status and the data register; the polls of the
-- transmitter are answered from the one list that is left.
unfoldable pub serve : TextApi → Terminal → List (ℕ × ℕ) → M Field Terminal
serve api t [] = pure t
serve api t ((status, received) ∷ more) =
    (λ reads. usart1 api t (status ∷ received ∷ reads)) >>= λ t'. serve api t' more

-- The same characters on the line of text.
unfoldable pub next_all : Line → List (ℕ × ℕ) → Line
next_all l [] = l
next_all l ((status, received) ∷ more) = next_all (next l (received % 256)) more

unfoldable pub says_all : TextApi → Line → List (ℕ × ℕ) → List ℕ
says_all api l [] = []
says_all api l ((status, received) ∷ more) =
    says api l (received % 256) ++ says_all api (next l (received % 256)) more

abbrev pub first_line : Line
first_line = record { text = []; count = 1 }

abbrev pub AsciiBytes : List (ℕ × ℕ) → Type 0
AsciiBytes = All (λ (e : ℕ × ℕ). e.1 % 256 < 128)

next-IsValid : (l : Line) (c : ℕ) → IsValid l → c < 128 → l.count + 2 < 2 ^ 32 → IsValid (next l c)
unfolding next
next-IsValid l c v h k = elim (Bool-cases (c == 13)) [
  | inl cr ↦ rw cr (omega arith)
  | inr other ↦ elim (Bool-cases (length l.text == 63)) [
    | inl full ↦ rw (other, full) v
    | inr free ↦
        rw (other, free)
          (record {
            room = ground (arith, v.room, length-append l.text (c ∷ []));
            ascii = append-IsAscii l.text (c ∷ []) v.ascii (h, tt);
            countable = v.countable;
          })
  ]
]

count-next : (l : Line) (c : ℕ) → (next l c).count ≤ l.count + 1
unfolding next
count-next l c = ground arith

module _ (api : TextApi) (accepts : AcceptsAscii api) where
  serve-Sends :
      (l : Line) (events : List (ℕ × ℕ))
      → IsValid l
      → AsciiBytes events
      → l.count + length events + 1 < 2 ^ 32
      → Sends (serve api (holding l) events) (holding (next_all l events)) (says_all api l events)
  unfolding serve next_all says_all
  serve-Sends l [] v h k = pure-Sends (holding l)
  serve-Sends l ((status, received) ∷ more) v h k =
      >>=-Sends (λ t'. serve api t' more) (usart1-Sends api accepts l status received v h.0)
        (serve-Sends (next l (received % 256)) more
          (next-IsValid l (received % 256) v h.0 (omega arith)) h.1
          (omega (arith, count-next l (received % 256))))

  -- A session of ASCII characters from the state after the set-up: the terminal holds the line that
  -- they make, and sends exactly the echoes and reports, in order. The counter fits for every session
  -- of fewer than 2^32 - 2 characters; the transmitter must be ready once for each byte sent.
  pub serve_refines :
      (events : List (ℕ × ℕ)) (reads : List ℕ)
      → AsciiBytes events
      → length events + 2 < 2 ^ 32
      → length (says_all api first_line events) ≤ count_set reads
      → let r = serve api initial events reads in
        (r.outcome ≡ done (holding (next_all first_line events)))
        × (sent r.trace ≡ says_all api first_line events)
  serve_refines events reads h k ready =
      let v : IsValid first_line = record {
        room = omega arith;
        ascii = tt;
        countable = omega arith;
      } in
      let s = serve-Sends first_line events v h (omega arith) in
      rw initial_holds (s.outcome reads ready, s.bytes_sent reads ready)

-- The interrupts of a text, the status register answering 32 (any answer does), then those of a
-- carriage return.
abbrev pub typed : List ℕ → List (ℕ × ℕ)
typed [] = (32, 13) ∷ []
typed (c ∷ cs) = (32, c) ∷ typed cs

abbrev pub IsPlain : List ℕ → Type 0
IsPlain = All (λ c. (c < 128) × (c ≢ 13))

module _ (api : TextApi) (l : Line) (c : ℕ) (small : c < 128) (plain : c ≢ 13) where
  says_of_plain : says api l (c % 256) ≡ c ∷ []
  unfolding says
  says_of_plain = ground arith

  next_of_plain :
      length l.text < 63 → next l (c % 256) ≡ record { text = l.text ++ (c ∷ []); count = l.count }
  unfolding next
  next_of_plain h = ground arith

-- A text that fits on the line is echoed as it is typed, and the carriage return reports it whole.
says_all-typed :
    (api : TextApi) (l : Line) (cs : List ℕ)
    → IsPlain cs
    → length l.text + length cs ≤ 63
    → says_all api l (typed cs) ≡ cs ++ report api l.count (l.text ++ cs)
unfolding says_all
says_all-typed api l [] h k = simp append-nil (unfold says in refl)
says_all-typed api l (c ∷ cs) h k =
    rw (says_of_plain api l c h.0.0 h.0.1, next_of_plain api l c h.0.0 h.0.1 (omega arith))
      (rw (
        says_all-typed api (record { text = l.text ++ (c ∷ []); count = l.count }) cs h.1
            (omega (arith, length-append l.text (c ∷ []))),
        append_assoc,
      ))

next_all-typed :
    (api : TextApi) (l : Line) (cs : List ℕ)
    → IsPlain cs
    → length l.text + length cs ≤ 63
    → next_all l (typed cs) ≡ record { text = []; count = l.count + 1 }
unfolding next_all
next_all-typed api l [] h k = unfold next in refl
next_all-typed api l (c ∷ cs) h k =
    rw (next_of_plain api l c h.0.0 h.0.1 (omega arith), next_all)
      (next_all-typed api (record { text = l.text ++ (c ∷ []); count = l.count }) cs h.1
        (omega (arith, length-append l.text (c ∷ []))))

typed-AsciiBytes : (cs : List ℕ) → IsPlain cs → AsciiBytes (typed cs)
typed-AsciiBytes [] h = omega arith
typed-AsciiBytes (c ∷ cs) h = (omega arith, typed-AsciiBytes cs h.1)

length-typed : (cs : List ℕ) → length (typed cs) ≡ length cs + 1
length-typed [] = omega arith
length-typed (c ∷ cs) = omega (arith, length-typed cs)

-- After the set-up a text of at most 63 plain characters and a carriage return send the text, as it
-- is typed, then its report with the number 1, and leave an empty second line; for every behaviour of
-- the transmitter in which it becomes ready once for each byte.
pub line_round_trip :
    (api : TextApi) (cs : List ℕ) (reads : List ℕ)
    → AcceptsAscii api
    → IsPlain cs
    → length cs ≤ 63
    → length (cs ++ report api 1 cs) ≤ count_set reads
    → let r = serve api initial (typed cs) reads in
      (r.outcome ≡ done (holding (record { text = []; count = 2 })))
      × (sent r.trace ≡ cs ++ report api 1 cs)
line_round_trip api cs reads accepts h k ready =
    let room : 0 + length cs ≤ 63 = omega arith in
    let same = says_all-typed api first_line cs h room in
    let r =
      serve_refines api accepts (typed cs) reads (typed-AsciiBytes cs h)
        (omega (arith, length-typed cs)) (rw same ready) in
    (r.0 ∙ ap (λ l. done (holding l)) (next_all-typed api first_line cs h room), r.1 ∙ same)
