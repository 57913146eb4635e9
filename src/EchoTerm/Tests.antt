-- ===== src/EchoTerm/Tests.antt =====
-- Runs of the terminal of s05_usart/src/bin/s05c02_echo_term.rs on concrete input.
use rust_on_stm32_notebook.Common.{
  ℕ, ◌+◌, ◌≡◌, refl, Bool, true, false, List, [], ◌∷◌, ◌++◌, arith, replicate, if◌then◌else◌, ltb,
}
use rust_on_stm32_notebook.Hardware.{done, panic, poll}
use rust_on_stm32_notebook.EchoTerm.{
  TextApi, initial, usart1, report, on_char, enter, new_line, log_line, send_byte_to_usart1,
  send_bytes_to_usart1, send_line,
}
use rust_on_stm32_notebook.EchoTerm.Sending.{sent}
use rust_on_stm32_notebook.EchoTerm.Refine.{
  Line, holding, next, says, IsValid, AcceptsAscii, usart1_refines,
}
use rust_on_stm32_notebook.EchoTerm.Session.{
  serve, next_all, says_all, first_line, typed, serve_refines, line_round_trip,
}
use rust_on_stm32_notebook.EchoTerm.Utf8.{RejectsLoneBytes, usart1_panics_on_non_ascii}

-- A check that admits ASCII alone, and a text for one-digit numbers.
abbrev is_ascii : List ℕ → Bool
is_ascii [] = true
is_ascii (b ∷ bs) = if ltb b 128 then is_ascii bs else false

abbrev ascii_api : TextApi
ascii_api = record { utf8_ok = is_ascii; itoa = λ n. (48 + n) ∷ [] }

ascii_api-accepts : AcceptsAscii ascii_api
ascii_api-accepts [] h = refl
ascii_api-accepts (b ∷ bs) h = ground (arith, ascii_api-accepts bs h.1)

ascii_api-rejects : RejectsLoneBytes ascii_api
ascii_api-rejects [] c k a h = ground arith
ascii_api-rejects (b ∷ bs) c k a h = ground (arith, ascii_api-rejects bs c k a.1 h)

abbrev hi_line : Line
hi_line = record { text = b'h' ∷ b'i' ∷ []; count = 7 }

hi_line-IsValid : IsValid hi_line
hi_line-IsValid = record { room = omega arith; ascii = omega arith; countable = omega arith }

abbrev ready : List ℕ
ready = 1 ∷ 0 ∷ 1 ∷ 1 ∷ 1 ∷ 1 ∷ 0 ∷ 0 ∷ replicate 20 1

usart1_refines_example :
    let r = usart1 ascii_api (holding hi_line) (32 ∷ 13 ∷ ready) in
    (r.outcome ≡ done (holding (next hi_line 13))) × (sent r.trace ≡ says ascii_api hi_line 13)
unfolding says report
usart1_refines_example =
    usart1_refines ascii_api ascii_api-accepts hi_line 32 13 ready hi_line-IsValid (omega arith)
      (omega arith)

report_text :
    sent (usart1 ascii_api (holding hi_line) (32 ∷ 13 ∷ ready)).trace
    ≡ 13 ∷ 10 ∷ b'7' ∷ b':' ∷ 32 ∷ b'h' ∷ b'i' ∷ 13 ∷ 10 ∷ b'>' ∷ b'>' ∷ b'>' ∷ 32 ∷ []
unfolding usart1 on_char enter new_line log_line send_byte_to_usart1 send_bytes_to_usart1 send_line
    poll
report_text = refl

abbrev h_typed : List (ℕ × ℕ)
h_typed = (32, b'h') ∷ (32, 13) ∷ []

serve_refines_example :
    let r = serve ascii_api initial h_typed ready in
    (r.outcome ≡ done (holding (next_all first_line h_typed)))
    × (sent r.trace ≡ says_all ascii_api first_line h_typed)
unfolding says_all says next report
serve_refines_example =
    serve_refines ascii_api ascii_api-accepts h_typed ready (omega arith) (omega arith)
      (omega arith)

line_round_trip_example :
    let r = serve ascii_api initial (typed (b'h' ∷ b'i' ∷ [])) ready in
    (r.outcome ≡ done (holding (record { text = []; count = 2 })))
    × (sent r.trace ≡ (b'h' ∷ b'i' ∷ []) ++ report ascii_api 1 (b'h' ∷ b'i' ∷ []))
unfolding report
line_round_trip_example =
    line_round_trip ascii_api (b'h' ∷ b'i' ∷ []) ready ascii_api-accepts (omega arith) (omega arith)
      (omega arith)

usart1_panics_on_non_ascii_example :
    let r = usart1 ascii_api (holding hi_line) (32 ∷ 195 ∷ ready) in
    (r.outcome ≡ panic) × (sent r.trace ≡ 195 ∷ [])
usart1_panics_on_non_ascii_example =
    usart1_panics_on_non_ascii ascii_api ascii_api-rejects hi_line 32 195 ready hi_line-IsValid
      (omega arith) (omega arith) (omega arith)
