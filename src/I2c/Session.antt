-- ===== src/I2c/Session.antt =====
-- Whole transfers from the master to the slave of s04_i2c/src/bin/s04c01_i2c1_to_i2c2.rs.
use rust_on_stm32_notebook.Common.{
  ℕ, ◌+◌, ◌^◌, ◌≤◌, ◌<◌, ◌≡◌, refl, ap, ◌∙◌, arith, true, false, if◌then◌else◌, List, [], ◌∷◌,
  length, take, drop, take-add, drop-add, ltb, leb, All, Bool-cases, inl, inr,
}
use rust_on_stm32_notebook.Hardware.{M, done, panic, pure, ◌>>=◌}
use rust_on_stm32_notebook.I2c.{
  Field, out_list, Sender, MasterStatus, i2c1_evt, slave_start, SlaveStatus,
}
use rust_on_stm32_notebook.I2c.Sending.{
  sent, stops, Sends, pure-Sends, >>=-Sends, restate, is_send, requests, i2c1_evt-Sends,
  i2c1_evt_panics,
}
use rust_on_stm32_notebook.I2c.Receiving.{
  holding, listen, bytes_in, EndsWithStop, IsBytes, listen_logs,
}

-- The master's interrupts, one after another.
unfoldable pub serve : List MasterStatus → Sender → M Field Sender
serve [] m = pure m
serve (s ∷ es) m = i2c1_evt s m >>= serve es

-- How many of them send a byte of the data.
abbrev pub data_sends : List MasterStatus → ℕ
data_sends [] = 0
data_sends (s ∷ es) = is_send s + data_sends es

-- No START condition among them.
abbrev pub NoStart : List MasterStatus → Type 0
NoStart = All (λ s. s.sb ≡ false)

abbrev pub sender_start : Sender
sender_start = record { sending_index = 0; sending_int_cnt = 1 }

serve-Sends :
    (es : List MasterStatus) (m : Sender)
    → NoStart es
    → m.sending_index + data_sends es ≤ 9
    → m.sending_int_cnt + length es < 2 ^ 32
    → Sends
        (serve es m)
        (record {
          sending_index = m.sending_index + data_sends es;
          sending_int_cnt = m.sending_int_cnt + length es;
        })
        (take (data_sends es) (drop m.sending_index out_list))
        (requests m.sending_index (data_sends es))
unfolding serve
serve-Sends [] m q h k = restate (pure-Sends m) (ground arith) refl (ground arith)
serve-Sends (s ∷ es) m q h k =
    let m' : Sender = record {
      sending_index = m.sending_index + is_send s;
      sending_int_cnt = m.sending_int_cnt + 1;
    } in
    restate
      (>>=-Sends (serve es) (i2c1_evt-Sends s m (omega arith) (omega arith))
        (serve-Sends es m' q.1 (omega arith) (omega arith)))
      (ground arith)
      (rw
        (
          q.0,
          take-add (is_send s) (data_sends es) (drop m.sending_index out_list),
          drop-add m.sending_index (is_send s) out_list,
        )
        refl)
      (ground arith)

-- After a START condition, and in whatever order the other interrupts come: the master writes the
-- address and then as many bytes of its list OUT_LIST, in order, as there are interrupts for an empty buffer
-- without a pending STOP. It requests STOP once, with the ninth byte, and never before. There may be
-- nine of them at most, and the counter must not overflow.
pub session_sends :
    (s : MasterStatus) (es : List MasterStatus) (reads : List ℕ)
    → s.sb ≡ true
    → is_send s ≡ 0
    → NoStart es
    → data_sends es ≤ 9
    → length es + 2 < 2 ^ 32
    → let r = serve (s ∷ es) sender_start reads in
      (r.outcome ≡ done (record { sending_index = data_sends es; sending_int_cnt = length es + 2 }))
      × (sent r.trace ≡ 170 ∷ take (data_sends es) out_list)
      × (stops r.trace ≡ (if ltb (data_sends es) 9 then 0 else 1))
unfolding serve
session_sends s es reads b z q h k =
    let first = i2c1_evt-Sends s sender_start (omega arith) (omega arith) in
    let m' : Sender = record { sending_index = 0 + is_send s; sending_int_cnt = 1 + 1 } in
    let all = >>=-Sends (serve es) first (serve-Sends es m' q (omega arith) (omega arith)) in
    let both = restate all (rw z (ground arith)) (rw (z, b) refl) (rw z (ground arith)) in
    (both.outcome reads, both.bytes_sent reads, both.stopped reads)

serve_panics :
    (es : List MasterStatus) (m : Sender) (reads : List ℕ)
    → m.sending_index ≤ 9
    → 9 < m.sending_index + data_sends es
    → m.sending_int_cnt + length es < 2 ^ 32
    → (serve es m reads).outcome ≡ panic
unfolding serve
serve_panics [] m reads a h k = absurd (omega arith)
serve_panics (s ∷ es) m reads a h k = elim (Bool-cases (leb (m.sending_index + is_send s) 9)) [
  | inl fits ↦
      let one = i2c1_evt-Sends s m (ground arith) (omega arith) in
      rw (one.outcome reads) (
        serve_panics es
          (record {
            sending_index = m.sending_index + is_send s;
            sending_int_cnt = m.sending_int_cnt + 1;
          })
          (i2c1_evt s m reads).rest (ground arith) (omega arith) (omega arith))
  | inr full ↦ rw (i2c1_evt_panics s m reads (ground arith) (ground arith) (ground arith)) refl
]

-- A tenth interrupt for an empty buffer, which comes where the STOP bit is clear again, panics.
pub session_panics :
    (s : MasterStatus) (es : List MasterStatus) (reads : List ℕ)
    → s.sb ≡ true
    → is_send s ≡ 0
    → NoStart es
    → 9 < data_sends es
    → length es + 2 < 2 ^ 32
    → (serve (s ∷ es) sender_start reads).outcome ≡ panic
session_panics s es reads b z q h k =
    serve_panics (s ∷ es) sender_start reads (omega arith) (omega (arith)) (omega arith)

-- A whole transfer: after the START condition nine interrupts for an empty buffer, and others in any
-- order, and at the slave nine interrupts with a byte, the STOP condition with the last interrupt.
-- The master ends with one request for STOP, and if the slave is given the bytes behind the
-- address, it logs exactly the master's list, OUT_LIST.
pub transfer_delivers :
    (s : MasterStatus) (es : List MasterStatus) (fs : List SlaveStatus) (reads : List ℕ)
    → s.sb ≡ true
    → is_send s ≡ 0
    → NoStart es
    → data_sends es ≡ 9
    → length es + 2 < 2 ^ 32
    → EndsWithStop fs
    → bytes_in fs ≡ 9
    → length fs + 1 < 2 ^ 32
    → let r = serve (s ∷ es) sender_start reads in
      (r.outcome ≡ done (record { sending_index = 9; sending_int_cnt = length es + 2 }))
      × (stops r.trace ≡ 1)
      × ((listen fs slave_start (drop 1 (sent r.trace))).outcome
          ≡ done (record { slave = holding out_list (1 + length fs); log = out_list ∷ [] }))
unfolding slave_start
transfer_delivers s es fs reads b z q n k stop m l =
    let sends = session_sends s es reads b z q (omega arith) k in
    let bytes : IsBytes out_list = omega arith in
    let heard =
      listen_logs fs [] out_list 1 stop bytes (ground arith) (omega arith) (omega arith) in
    (
      sends.0
          ∙ ap (λ (t : ℕ). done (record { sending_index = t; sending_int_cnt = length es + 2 })) n,
      sends.2 ∙ rw n refl,
      rw (sends.1, n) heard,
    )
