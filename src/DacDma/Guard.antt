-- ===== src/DacDma/Guard.antt =====
-- The order of the set-up of s20_dac/src/bin/s20c01_3with_dma.rs: the stream is configured at rest, and what
-- makes samples flow comes last, from the far end on.
use rust_on_stm32_notebook.Common.{
  ℕ, zero, suc, ◌≡◌, refl, Bool, true, false, not, ◌&&◌, if◌then◌else◌, List, ◌∷◌,
}
use rust_on_stm32_notebook.Hardware.{
  Value, enabled, pll, Effect, modify, sample, M, pure, write, poll, is_set, ◌>>=◌,
}
use rust_on_stm32_notebook.Hardware.Monitor.{
  respects, Keeps, pure-Keeps, write-Keeps, >>=-Keeps, read_then-Keeps, poll-Keeps,
  write_then-Keeps, poll_set-Keeps,
}
use rust_on_stm32_notebook.DacDma
use rust_on_stm32_notebook.DacDma.{Field}
use rust_on_stm32_notebook.DacDma.Setup.{
  setup_rcc, setup_gpio, disable_stream, stop_stream, configure_stream, setup_dma, setup_dac,
  setup_tim, main,
}

-- How far the set-up is known to be: nothing known of the stream; the stream read as stopped; the
-- peripherals stored for the handlers; then the stream, the DAC and the timer enabled.
pub data Progress : Type 0 where
  unknown stopped kept stream_on dac_on timer_on : Progress

-- What is known: the progress, whether the PLL was read as ready, and whether the flash waits for it.
pub record Known : Type 0 where
  pub progress : Progress
  pub pll_ready : Bool
  pub flash_set : Bool

abbrev pub at_reset : Known
at_reset = record { progress = unknown; pll_ready = false; flash_set = false }

abbrev pub known_after : Effect Field → Known → Known
known_after (sample DacDma.pllrdy (suc v)) s = record s { pll_ready = true }
known_after (modify ((DacDma.latency, v) ∷ fs)) s = record s { flash_set = true }
known_after (sample DacDma.stream_en zero) s = record s { progress = stopped }
known_after (modify ((DacDma.stored, v) ∷ fs)) s = record s { progress = kept }
known_after (modify ((DacDma.stream_en, enabled) ∷ fs)) s = record s { progress = stream_on }
known_after (modify ((DacDma.en1, v) ∷ fs)) s = record s { progress = dac_on }
known_after (modify ((DacDma.cen, v) ∷ fs)) s = record s { progress = timer_on }
known_after _ s = s

abbrev pub is_stopped : Progress → Bool
is_stopped stopped = true
is_stopped _ = false

abbrev pub is_kept : Progress → Bool
is_kept kept = true
is_kept _ = false

abbrev pub is_stream_on : Progress → Bool
is_stream_on stream_on = true
is_stream_on _ = false

abbrev pub is_dac_on : Progress → Bool
is_dac_on dac_on = true
is_dac_on _ = false

-- The system clock is taken from a ready PLL with the flash set; the stream is configured at rest, and
-- nothing runs before the handlers have the peripherals: then the stream, the DAC and the timer start in
-- this order.
abbrev pub setup_allowed : Effect Field → Known → Bool
setup_allowed (modify ((DacDma.sw, pll) ∷ fs)) s = s.pll_ready && s.flash_set
setup_allowed (modify ((DacDma.chsel, v) ∷ fs)) s = is_stopped s.progress
setup_allowed (modify ((DacDma.dmdis, v) ∷ fs)) s = is_stopped s.progress
setup_allowed (modify ((DacDma.m0ar, v) ∷ fs)) s = is_stopped s.progress
setup_allowed (modify ((DacDma.pa, v) ∷ fs)) s = is_stopped s.progress
setup_allowed (modify ((DacDma.ndt, v) ∷ fs)) s = is_stopped s.progress
setup_allowed (modify ((DacDma.tsel1, v) ∷ fs)) s = is_stopped s.progress
setup_allowed (modify ((DacDma.mms, v) ∷ fs)) s = is_stopped s.progress
setup_allowed (modify ((DacDma.stored, v) ∷ fs)) s = is_stopped s.progress
setup_allowed (modify ((DacDma.stream_en, enabled) ∷ fs)) s = is_kept s.progress
setup_allowed (modify ((DacDma.en1, v) ∷ fs)) s = is_stream_on s.progress
setup_allowed (modify ((DacDma.cen, v) ∷ fs)) s = is_dac_on s.progress
setup_allowed _ s = true

abbrev KeepsKnown : {A : Type 0} → Known → Known → M Field A → Type 0
KeepsKnown = Keeps known_after setup_allowed

abbrev with_clock : Progress → Known
with_clock p = record { progress = p; pll_ready = true; flash_set = true }

before :
    {B : Type 0} {k : M Field B} (s s' : Known) (fields : List (Field × Value))
    → setup_allowed (modify fields) s ≡ true
    → KeepsKnown (known_after (modify fields) s) s' k
    → KeepsKnown s s' (write fields >>= λ _. k)
before = write_then-Keeps known_after setup_allowed

last :
    (s : Known) (fields : List (Field × Value))
    → setup_allowed (modify fields) s ≡ true
    → KeepsKnown s (known_after (modify fields) s) (write fields)
last = write-Keeps known_after setup_allowed

then_keep :
    {A B : Type 0} {m : M Field A} {f : A → M Field B} {s s' s'' : Known}
    → KeepsKnown s s' m
    → ((a : A) → KeepsKnown s' s'' (f a))
    → KeepsKnown s s'' (m >>= f)
then_keep = >>=-Keeps known_after setup_allowed

polled :
    (f : Field) (s s' : Known)
    → ((v : ℕ) → setup_allowed (sample f v) s ≡ true)
    → known_after (sample f zero) s ≡ s
    → ((v : ℕ) → known_after (sample f (suc v)) s ≡ s')
    → KeepsKnown s s' (poll f is_set)
polled = poll_set-Keeps known_after setup_allowed

abbrev locked_on : Known
locked_on = record at_reset { pll_ready = true }

setup_rcc-Keeps : KeepsKnown at_reset (with_clock unknown) setup_rcc
unfolding setup_rcc
setup_rcc-Keeps =
    let all = with_clock unknown in
    before at_reset all _ refl (
      then_keep (polled DacDma.hserdy at_reset at_reset (λ v. refl) refl (λ v. refl)) (λ _.
        before at_reset all _ refl (
          before at_reset all _ refl (
            before at_reset all _ refl (
              before at_reset all _ refl (
                then_keep (polled DacDma.vosrdy at_reset at_reset (λ v. refl) refl (λ v. refl))
                  (λ _.
                    then_keep (polled DacDma.pllrdy at_reset locked_on (λ v. refl) refl (λ v. refl))
                      (λ _. before locked_on all _ refl (
                        before all all _ refl (
                          before all all _ refl (
                            polled DacDma.sws_is_pll all all (λ v. refl) refl (λ v. refl))))))))))))

setup_gpio-Keeps : (s : Known) → KeepsKnown s s setup_gpio
unfolding setup_gpio
setup_gpio-Keeps s = before s s _ refl (last s _ refl)

-- However the stream was found, it is stopped afterwards.
stop_stream-Keeps : KeepsKnown (with_clock unknown) (with_clock stopped) stop_stream
unfolding stop_stream disable_stream
stop_stream-Keeps = read_then-Keeps known_after setup_allowed (λ v. refl) next
  where
    still :
        (v : ℕ)
        → not (is_set v) ≡ false
        → known_after (sample DacDma.stream_en v) (with_clock unknown) ≡ with_clock unknown
    still zero e = cc
    still (suc v) e = refl

    stops :
        (v : ℕ)
        → not (is_set v) ≡ true
        → known_after (sample DacDma.stream_en v) (with_clock unknown) ≡ with_clock stopped
    stops zero e = refl
    stops (suc v) e = cc

    next :
        (v : ℕ)
        → KeepsKnown
            (known_after (sample DacDma.stream_en v) (with_clock unknown))
            (with_clock stopped)
            (if is_set v then disable_stream else pure tt)
    next zero = pure-Keeps known_after setup_allowed (with_clock stopped) tt
    next (suc v) =
        before (with_clock unknown) (with_clock stopped) _ refl
          (poll-Keeps known_after setup_allowed (λ v. refl) still stops)

configure_stream-Keeps :
    (wave dhr : ℕ)
    → KeepsKnown (with_clock stopped) (with_clock stopped) (configure_stream wave dhr)
unfolding configure_stream
configure_stream-Keeps wave dhr =
    let s = with_clock stopped in
    before s s _ refl (before s s _ refl (before s s _ refl (before s s _ refl (last s _ refl))))

setup_dma-Keeps :
    (wave dhr : ℕ) → KeepsKnown (with_clock unknown) (with_clock stopped) (setup_dma wave dhr)
unfolding setup_dma
setup_dma-Keeps wave dhr =
    let s = with_clock stopped in
    before (with_clock unknown) s _ refl (
      then_keep stop_stream-Keeps (λ _.
        then_keep (configure_stream-Keeps wave dhr)
          (λ _. before s s _ refl (before s s _ refl (before s s _ refl (last s _ refl))))))

setup_dac-Keeps : KeepsKnown (with_clock stopped) (with_clock stopped) setup_dac
unfolding setup_dac
setup_dac-Keeps =
    let s = with_clock stopped in before s s _ refl (before s s _ refl (last s _ refl))

setup_tim-Keeps : KeepsKnown (with_clock stopped) (with_clock stopped) setup_tim
unfolding setup_tim
setup_tim-Keeps =
    let s = with_clock stopped in before s s _ refl (before s s _ refl (last s _ refl))

-- For all addresses and whatever the hardware answers, also where a wait never ends: the system clock is
-- taken from the PLL only after it was read as ready and the wait states of the flash were set; the
-- stream, the trigger of the DAC and that of the timer are configured only after EN of the stream was
-- read as clear; and the stream, the DAC and the timer are enabled in this order, after the peripherals
-- were stored for the handlers.
pub samples_flow_last :
    (cos_wave dhr12r1 : ℕ) (reads : List ℕ)
    → respects known_after setup_allowed at_reset (main cos_wave dhr12r1 reads).trace ≡ true
unfolding main
samples_flow_last wave dhr reads = whole.safe reads
  where
    whole : KeepsKnown at_reset (with_clock timer_on) (main wave dhr)
    whole = then_keep setup_rcc-Keeps (λ _. then_keep (setup_gpio-Keeps (with_clock unknown)) (λ _.
        then_keep (setup_dma-Keeps wave dhr) (λ _. then_keep setup_dac-Keeps (λ _.
          then_keep setup_tim-Keeps (λ _. before (with_clock stopped) (with_clock timer_on) _ refl (
            before (with_clock kept) (with_clock timer_on) _ refl (
              before (with_clock stream_on) (with_clock timer_on) _ refl
                (last (with_clock dac_on) _ refl))))))))
