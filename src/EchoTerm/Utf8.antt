-- ===== src/EchoTerm/Utf8.antt =====
-- The UTF-8 check at the end of the interrupt handler of s05_usart/src/bin/s05c02_echo_term.rs.
use rust_on_stm32_notebook.Common.{
  ℕ, suc, ◌-◌, ◌%◌, ◌≤◌, ◌<◌, ◌≡◌, ◌==◌, refl, ap, ◌∙◌, List, [], ◌∷◌, ◌++◌, arith, length,
  replicate, true, false, ltb, append-nil, length-append,
}
use rust_on_stm32_notebook.Hardware.{panic, count_set, fail}
use rust_on_stm32_notebook.EchoTerm.{
  TextApi, Terminal, usart1, on_char, store_char, log_line, send_byte_to_usart1,
}
use rust_on_stm32_notebook.EchoTerm.Sending.{sent, Sends, send_byte-Sends}
use rust_on_stm32_notebook.EchoTerm.Refine.{
  Line, holding, IsAscii, IsValid, store_holds, length-line_buf,
}

-- What is documented of UTF-8: a byte from 128 on, between ASCII and a zero, is no character.
abbrev pub RejectsLoneBytes : TextApi → Type 0
RejectsLoneBytes api =
    (pre : List ℕ) (c : ℕ) (k : ℕ)
    → IsAscii pre
    → 128 ≤ c
    → api.utf8_ok ((pre ++ (c ∷ [])) ++ replicate (suc k) 0) ≡ false

module _ (api : TextApi) (rejects : RejectsLoneBytes api) where
  log_line_panics :
      (l : Line) (c k : ℕ)
      → IsAscii l.text
      → 128 ≤ c
      → (t : Terminal) → t.line_buf ≡ (l.text ++ (c ∷ [])) ++ replicate (suc k) 0
      → log_line api t ≡ fail
  unfolding log_line
  log_line_panics l c k a h t e = rw (e, rejects l.text c k a h)

  store_char_panics :
      (l : Line) (c : ℕ)
      → IsValid l
      → length l.text < 63
      → 128 ≤ c
      → store_char api (holding l) c ≡ fail
  unfolding store_char
  store_char_panics l c v free h =
      rw (space, inside)
        (log_line_panics l c (62 - length l.text) v.ascii h _ (
          ap (λ (t : Terminal). t.line_buf) (store_holds l c free)
          ∙ ap (λ k. (l.text ++ (c ∷ [])) ++ replicate k 0) left))
    where
      space : (length l.text == 63) ≡ false
      space = ground arith

      inside : ltb (length l.text) (length (holding l).line_buf) ≡ true
      inside = ground (arith, length-line_buf l v.room)

      left : 64 - length (l.text ++ (c ∷ [])) ≡ suc (62 - length l.text)
      left = omega (arith, length-append l.text (c ∷ []))

  on_char_panics :
      (l : Line) (c : ℕ) (reads : List ℕ)
      → IsValid l
      → length l.text < 63
      → 128 ≤ c
      → 1 ≤ count_set reads
      → let r = on_char api (holding l) c reads in (r.outcome ≡ panic) × (sent r.trace ≡ c ∷ [])
  unfolding on_char
  on_char_panics l c reads v free h ready =
      rw (other, store_char_panics l c v free h)
        (rw (s.outcome reads ready) (refl, rw (append-nil, s.bytes_sent reads ready)))
    where
      other : (c == 13) ≡ false
      other = ground arith

      s : Sends (send_byte_to_usart1 c) tt (c ∷ [])
      s = send_byte-Sends c

  -- A byte that is not ASCII is echoed, and then the handler panics, on every line with room.
  pub usart1_panics_on_non_ascii :
      (l : Line) (status received : ℕ) (reads : List ℕ)
      → IsValid l
      → length l.text < 63
      → 128 ≤ received % 256
      → 1 ≤ count_set reads
      → let r = usart1 api (holding l) (status ∷ received ∷ reads) in
        (r.outcome ≡ panic) × (sent r.trace ≡ received % 256 ∷ [])
  unfolding usart1
  usart1_panics_on_non_ascii l status received reads v free h ready =
      on_char_panics l (received % 256) reads v free h ready
