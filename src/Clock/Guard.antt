-- ===== src/Clock/Guard.antt =====
-- The order in which the programs of s01_rcc/src/bin switch the system clock to the PLL.
use rust_on_stm32_notebook.Common.{
  ℕ, zero, suc, ◌≡◌, refl, ap, ◌∙◌, ◌+◌, ◌^◌, Bool, true, false, not, ◌&&◌, List, [], ◌∷◌, ltb,
  Bool-cases, inl, inr,
}
use rust_on_stm32_notebook.Hardware.{
  Value, on, pll, Effect, modify, sample, done, M, write, poll, is_set, poll_count, ◌>>=◌,
}
use rust_on_stm32_notebook.Hardware.Monitor.{
  respects, state_after, Keeps, pure-Keeps, write-Keeps, >>=-Keeps, read_then-Keeps,
  write_then-Keeps, fail-Keeps, if-Keeps, poll_set-Keeps,
}
use rust_on_stm32_notebook.Clock
use rust_on_stm32_notebook.Clock.{Field, count_waits, add32, sum_waits, configure_pll}
use rust_on_stm32_notebook.Clock.Rearranged
use rust_on_stm32_notebook.Clock.Outputs
use rust_on_stm32_notebook.Clock.Outputs.{start_compensation, output_pll}

-- What is known of the clocks: whether HSE, the voltage and the PLL were read as ready, whether the
-- wait states of the flash are set, and whether the PLL is on.
pub record Known : Type 0 where
  pub hse_ready : Bool
  pub vos_ready : Bool
  pub pll_ready : Bool
  pub flash_set : Bool
  pub pll_on : Bool

abbrev pub after_reset : Known
after_reset = record {
  hse_ready = false;
  vos_ready = false;
  pll_ready = false;
  flash_set = false;
  pll_on = false;
}

abbrev pub known_after : Effect Field → Known → Known
known_after (sample Clock.hserdy (suc v)) s = record s { hse_ready = true }
known_after (sample Clock.vosrdy (suc v)) s = record s { vos_ready = true }
known_after (sample Clock.pllrdy (suc v)) s = record s { pll_ready = true }
known_after (modify ((Clock.latency, v) ∷ fs)) s = record s { flash_set = true }
known_after (modify ((Clock.pllon, on) ∷ fs)) s = record s { pll_on = true }
known_after _ s = s

-- The PLL is configured only while it is off, started only on a ready HSE, and taken for the system
-- clock only when it, the voltage and the flash are ready for it.
abbrev pub switch_allowed : Effect Field → Known → Bool
switch_allowed (modify ((Clock.pllsrc, v) ∷ fs)) s = not s.pll_on
switch_allowed (modify ((Clock.pllon, on) ∷ fs)) s = s.hse_ready
switch_allowed (modify ((Clock.sw, pll) ∷ fs)) s =
    s.hse_ready && (s.vos_ready && (s.pll_ready && s.flash_set))
switch_allowed _ s = true

abbrev KeepsKnown : {A : Type 0} → Known → Known → M Field A → Type 0
KeepsKnown = Keeps known_after switch_allowed

count_waits-Keeps :
    (f : Field) (count : ℕ) (s s' : Known)
    → ((v : ℕ) → switch_allowed (sample f v) s ≡ true)
    → known_after (sample f zero) s ≡ s
    → ((v : ℕ) → known_after (sample f (suc v)) s ≡ s')
    → KeepsKnown s s' (count_waits f count)
unfolding poll_count respects state_after
count_waits-Keeps f count s s' h stay go = record { safe = safe count; leaves = leaves count }
  where
    safe :
        (count : ℕ) (reads : List ℕ)
        → respects known_after switch_allowed s (count_waits f count reads).trace ≡ true
    safe count [] = refl
    safe count (suc v ∷ reads) = rw (h (suc v)) refl
    safe count (zero ∷ reads) = elim (Bool-cases (ltb (count + 1) (2 ^ 32))) [
      | inl e ↦ rw (e, h zero, stay) (safe (count + 1) reads)
      | inr e ↦ rw (e, h zero) refl
    ]

    leaves :
        (count : ℕ) (reads : List ℕ) (a : ℕ)
        → (count_waits f count reads).outcome ≡ done a
        → state_after known_after switch_allowed s (count_waits f count reads).trace ≡ s'
    leaves count [] a e = cc
    leaves count (suc v ∷ reads) a e = go v
    leaves count (zero ∷ reads) a e = elim (Bool-cases (ltb (count + 1) (2 ^ 32))) [
      | inl q ↦ rw q (
          ap (λ x. state_after known_after switch_allowed x (count_waits f (count + 1) reads).trace)
            stay
          ∙ leaves (count + 1) reads a (rw q at e))
      | inr q ↦ absurd (cc (rw q at e))
    ]

-- the rules of the monitor at these two functions
before :
    {B : Type 0} {k : M Field B} (s s' : Known) (fields : List (Field × Value))
    → switch_allowed (modify fields) s ≡ true
    → KeepsKnown (known_after (modify fields) s) s' k
    → KeepsKnown s s' (write fields >>= λ _. k)
before = write_then-Keeps known_after switch_allowed

then_keep :
    {A B : Type 0} {m : M Field A} {f : A → M Field B} {s s' s'' : Known}
    → KeepsKnown s s' m
    → ((a : A) → KeepsKnown s' s'' (f a))
    → KeepsKnown s s'' (m >>= f)
then_keep = >>=-Keeps known_after switch_allowed

add32-Keeps : (s : Known) (a b : ℕ) → KeepsKnown s s (add32 a b)
add32-Keeps s a b =
    if-Keeps known_after switch_allowed (ltb (a + b) (2 ^ 32))
      (pure-Keeps known_after switch_allowed s (a + b)) (fail-Keeps known_after switch_allowed s s)

sum_waits-Keeps : (s : Known) (a b c d : ℕ) → KeepsKnown s s (sum_waits a b c d)
unfolding sum_waits
sum_waits-Keeps s a b c d = then_keep (add32-Keeps s a b) (λ x.
    then_keep (add32-Keeps s x c)
      (λ y. then_keep (add32-Keeps s y d) (λ z. pure-Keeps known_after switch_allowed s _)))

abbrev hse_on : Known
hse_on = record after_reset { hse_ready = true }

abbrev started : Known
started = record hse_on { pll_on = true }

abbrev all_ready : Known
all_ready = record {
  hse_ready = true;
  vos_ready = true;
  pll_ready = true;
  flash_set = true;
  pll_on = true;
}

-- a counted wait, and one without a count, before the rest of a program
waited :
    {B : Type 0} {k : ℕ → M Field B} (f : Field) (count : ℕ) (s s' s'' : Known)
    → ((v : ℕ) → switch_allowed (sample f v) s ≡ true)
    → known_after (sample f zero) s ≡ s
    → ((v : ℕ) → known_after (sample f (suc v)) s ≡ s')
    → ((n : ℕ) → KeepsKnown s' s'' (k n))
    → KeepsKnown s s'' (count_waits f count >>= k)
waited f count s s' s'' h stay go q = then_keep (count_waits-Keeps f count s s' h stay go) q

polled :
    {B : Type 0} {k : M Field B} (f : Field) (s s' s'' : Known)
    → ((v : ℕ) → switch_allowed (sample f v) s ≡ true)
    → known_after (sample f zero) s ≡ s
    → ((v : ℕ) → known_after (sample f (suc v)) s ≡ s')
    → KeepsKnown s' s'' k
    → KeepsKnown s s'' (poll f is_set >>= λ _. k)
polled f s s' s'' h stay go q =
    then_keep (poll_set-Keeps known_after switch_allowed f s s' h stay go) (λ _. q)

abbrev voltage_ready : Known → Known
voltage_ready s = record s { vos_ready = true }

abbrev locked_on : Known → Known
locked_on s = record s { pll_ready = true }

main-Keeps : KeepsKnown after_reset all_ready Clock.main
unfolding Clock.main configure_pll
main-Keeps = before after_reset all_ready _ refl (
    waited Clock.hserdy 0 after_reset hse_on all_ready (λ v. refl) refl (λ v. refl)
      (λ a. before hse_on all_ready _ refl (
        before hse_on all_ready _ refl (
          before hse_on all_ready _ refl (
            before hse_on all_ready _ refl (
              waited Clock.vosrdy 0 started (voltage_ready started) all_ready (λ v. refl) refl
                (λ v. refl)
                (λ b.
                  waited Clock.pllrdy 0 (voltage_ready started) (locked_on (voltage_ready started))
                    all_ready (λ v. refl) refl (λ v. refl)
                    (λ c. before (locked_on (voltage_ready started)) all_ready _ refl (
                      before all_ready all_ready _ refl (
                        before all_ready all_ready _ refl (
                          before all_ready all_ready _ refl (
                            waited Clock.sws_is_pll 0 all_ready all_ready all_ready (λ v. refl) refl
                              (λ v. refl) (λ d. sum_waits-Keeps all_ready a b c d)))))))))))))

abbrev flash_on : Known → Known
flash_on s = record s { flash_set = true }

rearranged-Keeps : KeepsKnown after_reset all_ready Rearranged.main
unfolding Rearranged.main configure_pll
rearranged-Keeps = before after_reset all_ready _ refl (
    before after_reset all_ready _ refl (
      before after_reset all_ready _ refl (
        before after_reset all_ready _ refl (
          waited Clock.hserdy 0 after_reset hse_on all_ready (λ v. refl) refl (λ v. refl)
            (λ a. before hse_on all_ready _ refl (
              before started all_ready _ refl (
                before (flash_on started) all_ready _ refl (
                  waited Clock.vosrdy 0 (flash_on started) (voltage_ready (flash_on started))
                    all_ready (λ v. refl) refl (λ v. refl)
                    (λ b.
                      waited Clock.pllrdy 0 (voltage_ready (flash_on started)) all_ready all_ready
                        (λ v. refl) refl (λ v. refl)
                        (λ c. before all_ready all_ready _ refl (
                          waited Clock.sws_is_pll 0 all_ready all_ready all_ready (λ v. refl) refl
                            (λ v. refl) (λ d. sum_waits-Keeps all_ready a b c d))))))))))))

start_compensation-Keeps : KeepsKnown all_ready all_ready start_compensation
unfolding start_compensation
start_compensation-Keeps =
    read_then-Keeps known_after switch_allowed (λ v. refl)
      (λ v. before all_ready all_ready _ refl (
        poll_set-Keeps known_after switch_allowed Clock.cmp_ready all_ready all_ready (λ v. refl)
          refl (λ v. refl)))

output_pll-Keeps : KeepsKnown all_ready all_ready output_pll
unfolding output_pll
output_pll-Keeps = before all_ready all_ready _ refl (
    before all_ready all_ready _ refl (
      before all_ready all_ready _ refl (
        before all_ready all_ready _ refl (
          then_keep start_compensation-Keeps
            (λ _. write-Keeps known_after switch_allowed all_ready _ refl)))))

outputs-Keeps : KeepsKnown after_reset all_ready Outputs.main
unfolding Outputs.main configure_pll
outputs-Keeps = before after_reset all_ready _ refl (
    before after_reset all_ready _ refl (
      before after_reset all_ready _ refl (
        before (flash_on after_reset) all_ready _ refl (
          before (flash_on after_reset) all_ready _ refl (
            before (flash_on after_reset) all_ready _ refl (
              before (flash_on after_reset) all_ready _ refl (
                polled Clock.hserdy (flash_on after_reset) (flash_on hse_on) all_ready (λ v. refl)
                  refl (λ v. refl)
                  (before (flash_on hse_on) all_ready _ refl (
                    polled Clock.vosrdy (flash_on started) (voltage_ready (flash_on started))
                      all_ready (λ v. refl) refl (λ v. refl)
                      (polled Clock.pllrdy (voltage_ready (flash_on started)) all_ready all_ready
                        (λ v. refl) refl (λ v. refl)
                        (before all_ready all_ready _ refl (
                          polled Clock.sws_is_pll all_ready all_ready all_ready (λ v. refl) refl
                            (λ v. refl) output_pll-Keeps))))))))))))

-- The three programs that run on the PLL, whatever the hardware answers, also where a wait never ends:
-- the PLL is configured only while it is off, started only after HSE was read as ready, and taken for
-- the system clock only after HSE, the voltage and the PLL were each read as ready and the wait states
-- of the flash were set.
pub switches_when_ready :
    (reads : List ℕ)
    → (respects known_after switch_allowed after_reset (Clock.main reads).trace ≡ true)
      × ((respects known_after switch_allowed after_reset (Rearranged.main reads).trace ≡ true)
          × (respects known_after switch_allowed after_reset (Outputs.main reads).trace ≡ true))
switches_when_ready reads =
    (main-Keeps.safe reads, (rearranged-Keeps.safe reads, outputs-Keeps.safe reads))
