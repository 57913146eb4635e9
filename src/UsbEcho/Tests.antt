-- ===== src/UsbEcho/Tests.antt =====
-- Runs of the class of s13_usb/src/bin/s13c02_custom_tx_rx_1poll.rs at concrete packets.
use rust_on_stm32_notebook.Common.{
  ℕ, ◌+◌, ◌≤◌, ◌≡◌, refl, Bool, true, false, arith, List, [], ◌∷◌, none, some, length, take,
  replicate,
}
use rust_on_stm32_notebook.UsbEcho.{
  Result, ok, MyUsbClass, new, ◌>>=◌, read, endpoint_out, hello, round, write, after_write,
  endpoint_in_complete,
}
use rust_on_stm32_notebook.UsbEcho.Receive.{
  over, Delivers, round_shows_packet, round_panics_on_long_packet, second_packet_overwrites,
}
use rust_on_stm32_notebook.UsbEcho.Transmit.{
  Event, send, complete, accepted, completions, room, one_in_flight,
}

-- An endpoint with one packet, as documented, and one that takes every write.
abbrev delivering : List ℕ → List ℕ → List ℕ × Result Unit
delivering p buf = (over p buf, ok (length p))

delivering-Delivers : (p : List ℕ) → Delivers (delivering p) p
delivering-Delivers p buf h = refl

abbrev taking : List ℕ → Result Unit
taking bytes = ok (length bytes)

abbrev any_text : List ℕ → Bool
any_text bytes = true

abbrev hi : List ℕ
hi = b'h' ∷ b'i' ∷ []

abbrev dash : List ℕ
dash = b'-' ∷ []

abbrev idle : MyUsbClass
idle = record { in_empty = true; receive_buf = replicate 32 0; receive_index = 0 }

new_is_idle : new ≡ idle
unfolding new
new_is_idle = refl

round_shows_packet_example :
    (endpoint_out 1 (delivering hi) 1 idle >>= λ c'. round any_text taking c' (replicate 16 0))
    ≡ some (record {
      class = record {
        in_empty = false;
        receive_buf = over hi (replicate 32 0);
        receive_index = 0;
      };
      buffer = over hi (replicate 16 0);
      shown = hi ∷ [];
    })
round_shows_packet_example =
    round_shows_packet 1 (delivering hi) taking any_text idle (replicate 16 0) hi 4
      (delivering-Delivers hi) refl refl refl (omega arith) (omega arith) refl refl

long_packet_panics :
    (endpoint_out 1 (delivering (replicate 20 b'x')) 1 idle >>= λ c'.
    round any_text taking c' (replicate 16 0))
    ≡ none
long_packet_panics =
    round_panics_on_long_packet 1 (delivering (replicate 20 b'x')) taking any_text idle
      (replicate 16 0) (replicate 20 b'x') (delivering-Delivers (replicate 20 b'x')) refl refl refl
      (omega arith) (omega arith)

two_packets_overwrite :
    (out : List ℕ) × (left : MyUsbClass) × ((endpoint_out 1 (delivering hi) 1 idle >>= λ c'.
    endpoint_out 1 (delivering dash) 1 c' >>= λ c''. read {E = Unit} c'' (replicate 16 0))
      ≡ some (left, out, ok (2 + 1)))
    × (take 1 out ≡ dash)
two_packets_overwrite =
    second_packet_overwrites 1 (delivering hi) (delivering dash) idle hi dash (replicate 16 0)
      (delivering-Delivers hi) (delivering-Delivers dash) refl refl refl (omega arith) (omega arith)

abbrev busy_run : List (Event Unit)
busy_run = send hello taking ∷ send hello taking ∷ complete 129 ∷ send hello taking ∷ []

one_in_flight_example : accepted 129 idle busy_run ≤ completions 129 busy_run + room idle
one_in_flight_example = one_in_flight 129 idle busy_run

busy_run_accepts : accepted 129 idle busy_run ≡ 2
unfolding accepted write after_write endpoint_in_complete
busy_run_accepts = refl
