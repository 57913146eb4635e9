-- ===== src/MemCopy/Guard.antt =====
-- The order of the set-up of the two copies of s08_dma/src/bin: what the hardware locks while the stream
-- runs.
use rust_on_stm32_notebook.Common.{
  ℕ, zero, suc, ◌≡◌, refl, Bool, true, false, not, if◌then◌else◌, List, [], ◌∷◌, ◌++◌, Bool-cases,
  inl, inr,
}
use rust_on_stm32_notebook.Hardware.{
  Value, enabled, Effect, modify, sample, M, pure, write, is_set, ◌>>=◌,
}
use rust_on_stm32_notebook.Hardware.Monitor.{
  respects, Keeps, pure-Keeps, write-Keeps, >>=-Keeps, read_then-Keeps, poll-Keeps,
  write_then-Keeps,
}
use rust_on_stm32_notebook.Hardware.Ensures.{Ensures, part_then-Ensures}
use rust_on_stm32_notebook.MemCopy
use rust_on_stm32_notebook.MemCopy.{Field, disable_stream, stop_stream, start, watch, note_half}
use rust_on_stm32_notebook.MemCopy.Flash2mem

-- What is known of the stream: perhaps running, read as stopped, or configured and started.
pub data Stream : Type 0 where
  unknown stopped started : Stream

abbrev pub stream_after : Effect Field → Stream → Stream
stream_after (sample MemCopy.stream_en zero) s = stopped
stream_after (sample MemCopy.stream_en (suc v)) s = unknown
stream_after (modify ((MemCopy.stream_en, enabled) ∷ fs)) s = started
stream_after _ s = s

abbrev pub is_stopped : Stream → Bool
is_stopped stopped = true
is_stopped _ = false

abbrev pub is_started : Stream → Bool
is_started started = true
is_started _ = false

-- The stream is configured and enabled only while it is stopped; its flags are read, and its interrupt is
-- unmasked, only after it was started.
abbrev pub stream_allowed : Effect Field → Stream → Bool
stream_allowed (modify ((MemCopy.chsel, v) ∷ fs)) s = is_stopped s
stream_allowed (modify ((MemCopy.dir, v) ∷ fs)) s = is_stopped s
stream_allowed (modify ((MemCopy.psize, v) ∷ fs)) s = is_stopped s
stream_allowed (modify ((MemCopy.m0a, v) ∷ fs)) s = is_stopped s
stream_allowed (modify ((MemCopy.pa, v) ∷ fs)) s = is_stopped s
stream_allowed (modify ((MemCopy.ndt, v) ∷ fs)) s = is_stopped s
stream_allowed (modify ((MemCopy.fth, v) ∷ fs)) s = is_stopped s
stream_allowed (modify ((MemCopy.feie, v) ∷ fs)) s = is_stopped s
stream_allowed (modify ((MemCopy.pburst, v) ∷ fs)) s = is_stopped s
stream_allowed (modify ((MemCopy.stream_en, enabled) ∷ fs)) s = is_stopped s
stream_allowed (modify ((MemCopy.nvic_dma2_stream0, v) ∷ fs)) s = is_started s
stream_allowed (sample MemCopy.lisr v) s = is_started s
stream_allowed _ s = true

abbrev KeepsStream : {A : Type 0} → Stream → Stream → M Field A → Type 0
KeepsStream = Keeps stream_after stream_allowed

before :
    {B : Type 0} {k : M Field B} (s s' : Stream) (fields : List (Field × Value))
    → stream_allowed (modify fields) s ≡ true
    → KeepsStream (stream_after (modify fields) s) s' k
    → KeepsStream s s' (write fields >>= λ _. k)
before = write_then-Keeps stream_after stream_allowed

last :
    (s : Stream) (fields : List (Field × Value))
    → stream_allowed (modify fields) s ≡ true
    → KeepsStream s (stream_after (modify fields) s) (write fields)
last = write-Keeps stream_after stream_allowed

then_keep :
    {A B : Type 0} {m : M Field A} {f : A → M Field B} {s s' s'' : Stream}
    → KeepsStream s s' m
    → ((a : A) → KeepsStream s' s'' (f a))
    → KeepsStream s s'' (m >>= f)
then_keep = >>=-Keeps stream_after stream_allowed

-- However the stream was found, it is stopped afterwards.
stop_stream-Keeps : KeepsStream unknown stopped stop_stream
unfolding stop_stream disable_stream
stop_stream-Keeps = read_then-Keeps stream_after stream_allowed (λ v. refl) next
  where
    still :
        (v : ℕ)
        → not (is_set v) ≡ false
        → stream_after (sample MemCopy.stream_en v) unknown ≡ unknown
    still zero e = cc
    still (suc v) e = refl

    stops :
        (v : ℕ)
        → not (is_set v) ≡ true
        → stream_after (sample MemCopy.stream_en v) unknown ≡ stopped
    stops zero e = refl
    stops (suc v) e = cc

    next :
        (v : ℕ)
        → KeepsStream
            (stream_after (sample MemCopy.stream_en v) unknown)
            stopped
            (if is_set v then disable_stream else pure tt)
    next zero = pure-Keeps stream_after stream_allowed stopped tt
    next (suc v) =
        before unknown stopped _ refl
          (poll-Keeps stream_after stream_allowed (λ v. refl) still stops)

configure-Keeps : (src dst : ℕ) → KeepsStream stopped stopped (MemCopy.configure src dst)
unfolding MemCopy.configure
configure-Keeps src dst = before stopped stopped _ refl (
    before stopped stopped _ refl (
      before stopped stopped _ refl (
        before stopped stopped _ refl (
          before stopped stopped _ refl (
            before stopped stopped _ refl (before stopped stopped _ refl (last stopped _ refl)))))))

start-Keeps : (src dst : ℕ) → KeepsStream unknown started (start src dst)
unfolding start
start-Keeps src dst = before unknown started _ refl (
    then_keep stop_stream-Keeps (λ _.
      then_keep (configure-Keeps src dst)
        (λ _. before stopped started _ refl (before stopped started _ refl (last stopped _ refl)))))

configure_flash-Keeps : (src dst : ℕ) → KeepsStream stopped stopped (Flash2mem.configure src dst)
unfolding Flash2mem.configure
configure_flash-Keeps src dst = before stopped stopped _ refl (
    before stopped stopped _ refl
      (before stopped stopped _ refl (before stopped stopped _ refl (last stopped _ refl))))

flash_main-Keeps : (src dst : ℕ) → KeepsStream unknown started (Flash2mem.main src dst)
unfolding Flash2mem.main
flash_main-Keeps src dst = before unknown started _ refl (
    then_keep stop_stream-Keeps (λ _. then_keep (configure_flash-Keeps src dst) (λ _.
      before stopped started _ refl
        (before stopped started _ refl (before stopped started _ refl (last started _ refl))))))

module _ (feif0 htif0 tcif0 : ℕ → Bool) where
  note_half_then :
      (v : ℕ) (t : List (Effect Field))
      → respects stream_after stream_allowed started t ≡ true
      → respects stream_after stream_allowed started (note_half feif0 htif0 tcif0 v ++ t) ≡ true
  unfolding respects
  note_half_then v t h = elim (Bool-cases (htif0 v)) [ inl e ↦ rw e h | inr e ↦ rw e h ]

  -- watching touches nothing that the running stream locks
  watch-Keeps :
      (reads : List ℕ)
      → respects stream_after stream_allowed started (watch feif0 htif0 tcif0 reads).trace ≡ true
  unfolding watch respects
  watch-Keeps [] = refl
  watch-Keeps (v ∷ reads) = elim (Bool-cases (feif0 v)) [
    | inl e ↦ rw e refl
    | inr e ↦ elim (Bool-cases (tcif0 v)) [
      | inl c ↦ rw (e, c) (note_half_then v _ refl)
      | inr c ↦ rw (e, c) (note_half_then v _ (watch-Keeps reads))
    ]
  ]

-- Both copies, for all addresses and whatever the hardware answers, also where the wait for the stream
-- never ends: the stream is configured and enabled only when its last read of EN was clear, and its flags
-- are read, or its interrupt is unmasked, only after it was enabled.
pub copies_configure_stopped :
    (feif0 htif0 tcif0 : ℕ → Bool) (src dst : ℕ) (reads : List ℕ)
    → (respects stream_after stream_allowed unknown
          (MemCopy.main feif0 htif0 tcif0 src dst reads).trace
        ≡ true)
      × (respects stream_after stream_allowed unknown (Flash2mem.main src dst reads).trace ≡ true)
unfolding MemCopy.main
copies_configure_stopped feif0 htif0 tcif0 src dst reads =
    (whole.safe reads, (flash_main-Keeps src dst).safe reads)
  where
    whole :
        Ensures stream_after stream_allowed unknown
          (λ u s. Unit {0})
          (MemCopy.main feif0 htif0 tcif0 src dst)
    whole =
        part_then-Ensures stream_after stream_allowed (start-Keeps src dst)
          (λ _. record { safe = watch-Keeps feif0 htif0 tcif0; leaves = λ reads u e. tt })
