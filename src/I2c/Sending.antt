-- ===== src/I2c/Sending.antt =====
-- What the master of s04_i2c/src/bin/s04c01_i2c1_to_i2c2.rs puts on the bus, for any order of its
-- interrupts.
use rust_on_stm32_notebook.Common.{
  ℕ, ◌+◌, ◌*◌, ◌/◌, ◌%◌, ◌^◌, ◌≤◌, ◌<◌, ◌==◌, ◌≡◌, refl, ap, ◌∙◌, arith, Bool, true, false, not,
  if◌then◌else◌, List, [], ◌∷◌, ◌++◌, append-nil, append_assoc, none, take, drop, take_one-drop,
  get_elem?, get_elem?-lt, get_elem?-ge, Bool-cases, inl, inr, ltb,
}
use rust_on_stm32_notebook.Hardware.{
  Value, bits, Effect, modify, sample, M, done, panic, pure, write, discard, when_true, ◌>>=◌, ◌>>◌,
}
use rust_on_stm32_notebook.I2c.{
  Field, dr, stop, i2c_slave_address, sr1, sr2, out_list, increment, Sender, MasterStatus,
  send_next, stop_or_send, master_handled, i2c1_evt,
}

-- The bytes written to a data register, and the requests for a STOP condition.
abbrev data_of : List (Field × Value) → List ℕ
data_of ((dr _, bits v) ∷ []) = v ∷ []
data_of _ = []

abbrev stop_of : List (Field × Value) → ℕ
stop_of ((stop _, Value.stop_condition) ∷ []) = 1
stop_of _ = 0

abbrev pub sent : List (Effect Field) → List ℕ
sent [] = []
sent (modify fields ∷ t) = data_of fields ++ sent t
sent (sample f v ∷ t) = sent t

abbrev pub stops : List (Effect Field) → ℕ
stops [] = 0
stops (modify fields ∷ t) = stop_of fields + stops t
stops (sample f v ∷ t) = stops t

sent-append : (s t : List (Effect Field)) → sent (s ++ t) ≡ sent s ++ sent t
sent-append [] t = refl
sent-append (modify fields ∷ s) t =
    rw (sent-append s t, append_assoc (data_of fields) (sent s) (sent t)) refl
sent-append (sample f v ∷ s) t = sent-append s t

stops-append : (s t : List (Effect Field)) → stops (s ++ t) ≡ stops s + stops t
stops-append [] t = omega arith
stops-append (modify fields ∷ s) t = omega (arith, stops-append s t)
stops-append (sample f v ∷ s) t = stops-append s t

-- A run that ends with `a`, and has sent these bytes and requested STOP so often.
pub record Sends {A : Type 0} (m : M Field A) (a : A) (bytes : List ℕ) (n : ℕ) : Type 0 where
  pub outcome : (reads : List ℕ) → (m reads).outcome ≡ done a
  pub leaves : (reads : List ℕ) → (m reads).rest ≡ reads
  pub bytes_sent : (reads : List ℕ) → sent (m reads).trace ≡ bytes
  pub stopped : (reads : List ℕ) → stops (m reads).trace ≡ n

pub pure-Sends : {A : Type 0} (a : A) → Sends (pure a) a [] 0
pure-Sends a = record {
  outcome = λ reads. refl;
  leaves = λ reads. refl;
  bytes_sent = λ reads. refl;
  stopped = λ reads. refl;
}

module _ {A B : Type 0} {m : M Field A} (f : A → M Field B) {a : A} {b : B} {xs ys : List ℕ}
    {i j : ℕ} where
  pub >>=-Sends : Sends m a xs i → Sends (f a) b ys j → Sends (m >>= f) b (xs ++ ys) (i + j)
  >>=-Sends p q = record {
    outcome = λ reads. rw (p.outcome reads) (q.outcome (m reads).rest);
    leaves = λ reads. rw (p.outcome reads) (q.leaves (m reads).rest ∙ p.leaves reads);
    bytes_sent = λ reads.
        rw (p.outcome reads)
          (rw (sent-append, p.bytes_sent reads, q.bytes_sent (m reads).rest) refl);
    stopped = λ reads.
        rw (p.outcome reads) (rw (stops-append, p.stopped reads, q.stopped (m reads).rest) refl);
  }

-- The same run, with its result and what it sends written otherwise.
pub restate :
    {A : Type 0} {m : M Field A} {a b : A} {xs ys : List ℕ} {i j : ℕ}
    → Sends m a xs i
    → a ≡ b
    → xs ≡ ys
    → i ≡ j
    → Sends m b ys j
restate s e f g = record {
  outcome = λ reads. s.outcome reads ∙ ap done e;
  leaves = s.leaves;
  bytes_sent = λ reads. s.bytes_sent reads ∙ f;
  stopped = λ reads. s.stopped reads ∙ g;
}

write-Sends :
    (fields : List (Field × Value))
    → Sends (write fields) tt (data_of fields ++ []) (stop_of fields + 0)
write-Sends fields = record {
  outcome = λ reads. refl;
  leaves = λ reads. refl;
  bytes_sent = λ reads. refl;
  stopped = λ reads. refl;
}

when-Sends :
    (b : Bool) (m : M Field (Unit {0})) (bytes : List ℕ) (n : ℕ)
    → Sends m tt bytes n
    → Sends (when_true b m) tt (if b then bytes else []) (if b then n else 0)
when-Sends true m bytes n s = s
when-Sends false m bytes n s = pure-Sends tt

-- The dropped reads send nothing.
discards-Sends : (b : Bool) → Sends (when_true b (do discard (sr1 1); discard (sr2 1))) tt [] 0
discards-Sends true =
    >>=-Sends (λ _. discard (sr2 1)) (write-Sends ((sr1 1, Value.dropped) ∷ []))
      (write-Sends ((sr2 1, Value.dropped) ∷ []))
discards-Sends false = pure-Sends tt

discard-Sends : (b : Bool) → Sends (when_true b (discard (sr2 1))) tt [] 0
discard-Sends true = write-Sends ((sr2 1, Value.dropped) ∷ [])
discard-Sends false = pure-Sends tt

increment-Sends :
    {A : Type 0} (cnt : ℕ) (f : ℕ → A)
    → cnt + 1 < 2 ^ 32
    → Sends (increment cnt f) (f (cnt + 1)) [] 0
unfolding increment
increment-Sends cnt f h =
    let e : ltb (cnt + 1) (2 ^ 32) ≡ true = ground arith in rw e (pure-Sends (f (cnt + 1)))

-- An interrupt that sends a byte of the data.
abbrev pub is_send : MasterStatus → ℕ
is_send s = if s.stop_pending then 0 else (if s.tx_e then 1 else 0)

-- Whether n bytes from the index i reach the last byte.
abbrev pub requests : ℕ → ℕ → ℕ
requests i n = if ltb i 9 then (if ltb (i + n) 9 then 0 else 1) else 0

-- The address with the bit for writing, which follows a START condition.
abbrev pub address_byte : MasterStatus → List ℕ
address_byte s = if s.sb then 170 ∷ [] else []

abbrev announce : M Field (Unit {0})
announce = do discard (sr1 1); write ((dr 1, bits (i2c_slave_address * 2 % 256 / 2 * 2)) ∷ [])

announce-Sends : Sends announce tt (170 ∷ []) 0
announce-Sends =
    >>=-Sends (λ _. write ((dr 1, bits 170) ∷ [])) (write-Sends ((sr1 1, Value.dropped) ∷ []))
      (write-Sends ((dr 1, bits 170) ∷ []))

send_next-Sends :
    (i : ℕ) → i < 9 → Sends (send_next i) (i + 1) (take 1 (drop i out_list)) (requests i 1)
unfolding send_next
send_next-Sends i h =
    let (b, found) = get_elem?-lt out_list i h in
    let last =
      when-Sends (i == 8) (write ((stop 1, Value.stop_condition) ∷ [])) [] 1
        (write-Sends ((stop 1, Value.stop_condition) ∷ [])) in
    let rest =
      >>=-Sends
        (λ _. when_true (i == 8) (write ((stop 1, Value.stop_condition) ∷ [])) >> pure (i + 1))
        (write-Sends ((dr 1, bits b) ∷ []))
        (>>=-Sends (λ _. pure (i + 1)) last (pure-Sends (i + 1))) in
    rw (found, take_one-drop out_list i found) (restate rest refl (ground arith) (ground arith))

stop_or_send-Sends :
    (s : MasterStatus) (i : ℕ)
    → i + is_send s ≤ 9
    → Sends
        (stop_or_send s i)
        (i + is_send s)
        (take (is_send s) (drop i out_list))
        (requests i (is_send s))
unfolding stop_or_send
stop_or_send-Sends s i h = ground (arith, send_next-Sends i)

-- One interrupt.
pub i2c1_evt-Sends :
    (s : MasterStatus) (m : Sender)
    → m.sending_index + is_send s ≤ 9
    → m.sending_int_cnt + 1 < 2 ^ 32
    → Sends
        (i2c1_evt s m)
        (record {
          sending_index = m.sending_index + is_send s;
          sending_int_cnt = m.sending_int_cnt + 1;
        })
        (address_byte s ++ take (is_send s) (drop m.sending_index out_list))
        (requests m.sending_index (is_send s))
unfolding i2c1_evt
i2c1_evt-Sends s m h k =
    restate
      (>>=-Sends _ (when-Sends s.sb announce (170 ∷ []) 0 announce-Sends) (
        >>=-Sends _ (discards-Sends s.addr) (
          >>=-Sends (λ idx. finish idx) (stop_or_send-Sends s m.sending_index h)
            (>>=-Sends _ (discard-Sends (not (master_handled s))) (
              increment-Sends m.sending_int_cnt
                (λ cnt. record {
                  sending_index = m.sending_index + is_send s;
                  sending_int_cnt = cnt;
                })
                k)))))
      refl (rw append-nil refl) (ground arith)
  where
    finish : ℕ → M Field Sender
    finish idx = do
      when_true (not (master_handled s)) (discard (sr2 1))
      increment m.sending_int_cnt (λ cnt. record { sending_index = idx; sending_int_cnt = cnt })

-- Once the nine bytes are sent, one more interrupt for an empty buffer indexes out of the list.
pub i2c1_evt_panics :
    (s : MasterStatus) (m : Sender) (reads : List ℕ)
    → s.stop_pending ≡ false
    → s.tx_e ≡ true
    → 9 ≤ m.sending_index
    → (i2c1_evt s m reads).outcome ≡ panic
unfolding i2c1_evt stop_or_send send_next
i2c1_evt_panics s m reads p t h =
    let missing : get_elem? out_list m.sending_index ≡ none =
      get_elem?-ge out_list m.sending_index h in
    elim (Bool-cases s.sb) [
      | inl b ↦ elim (Bool-cases s.addr) [
        | inl a ↦ rw (b, a, p, t, missing) refl
        | inr a ↦ rw (b, a, p, t, missing) refl
      ]
      | inr b ↦ elim (Bool-cases s.addr) [
        | inl a ↦ rw (b, a, p, t, missing) refl
        | inr a ↦ rw (b, a, p, t, missing) refl
      ]
    ]
