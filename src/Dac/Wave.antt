-- ===== src/Dac/Wave.antt =====
-- Which samples the loop of s20_dac/src/bin/s20c01_2sin_wave.rs plays.
use rust_on_stm32_notebook.Common.{
  ℕ, zero, suc, ◌+◌, ◌-◌, ◌%◌, ◌<◌, ◌≡◌, refl, ap, ◌∙◌, Bool, true, false, arith, List, [], ◌∷◌,
  ◌++◌, append_assoc, Option, none, some, get_elem?, ltb, if◌then◌else◌, all_below, all_below_sound,
}
use rust_on_stm32_notebook.Hardware.{Value, Effect, modify, sample, bits, done, poll, is_set}
use rust_on_stm32_notebook.Hardware.Laws.{Polled, poll-Polled}
use rust_on_stm32_notebook.Dac
use rust_on_stm32_notebook.Dac.{Field, dacc1dhr, cos_wave_100, next_sample, play}
use rust_on_stm32_notebook.Dac.Setup.{setup_rcc, setup_gpio, setup_dac, main}

-- The numbers written to the DAC, in order.
abbrev value_of : List (Field × Value) → List ℕ
value_of ((dacc1dhr, bits v) ∷ []) = v ∷ []
value_of _ = []

abbrev pub voltages : List (Effect Field) → List ℕ
voltages [] = []
voltages (modify fields ∷ t) = value_of fields ++ voltages t
voltages (sample f v ∷ t) = voltages t

voltages-append : (s t : List (Effect Field)) → voltages (s ++ t) ≡ voltages s ++ voltages t
voltages-append [] t = refl
voltages-append (modify fields ∷ s) t =
    rw (voltages-append s t, append_assoc (value_of fields) (voltages s) (voltages t)) refl
voltages-append (sample f v ∷ s) t = voltages-append s t

-- The index that the code plays in round n, counted from 0: once through the table from its start,
-- and then round and round from its second sample.
abbrev pub played : ℕ → ℕ
played n = if ltb n 100 then n else (n - 100) % 99 + 1

-- A sample that the 12-bit register holds.
abbrev fits : Option ℕ → Bool
fits none = false
fits (some v) = ltb v 4096

in_table : all_below 100 (λ i. fits (get_elem? cos_wave_100 i)) ≡ true
unfolding all_below
in_table = refl

fits-some : (o : Option ℕ) → fits o ≡ true → (v : ℕ) × (o ≡ some v) × (v < 4096)
fits-some none h = absurd (ground arith)
fits-some (some v) h = (v, refl, ground arith)

sample_at : (i : ℕ) → i < 100 → (v : ℕ) × (get_elem? cos_wave_100 i ≡ some v) × (v < 4096)
sample_at i h =
    fits-some (get_elem? cos_wave_100 i)
      (all_below_sound 100 (λ i. fits (get_elem? cos_wave_100 i)) i in_table h)

next_index :
    (n : ℕ) → (if ltb (played n + 1) 100 then played n + 1 else 100 - played n) ≡ played (n + 1)
next_index n = ground arith

played-lt : (n : ℕ) → played n < 100
played-lt n = ground arith

-- Every round ends: the loop never reads out of the table, and it writes exactly one number, which
-- fits the 12 bits of the register. In round n it is the sample at `played n`, so that the sample at 0
-- is written in the first round and in no other.
pub round_plays :
    (n : ℕ) (reads : List ℕ)
    → let r = next_sample (played n) reads in
      (r.outcome ≡ done (played (n + 1)))
      × ((v : ℕ) × (voltages r.trace ≡ v ∷ [])
          × (get_elem? cos_wave_100 (played n) ≡ some v)
          × (v < 4096))
unfolding next_sample
round_plays n reads =
    let (v, found, small) = sample_at (played n) (played-lt n) in
    (rw (found, next_index n) refl, (v, rw found refl, found, small))

-- The samples that the rounds from number k on play, n of them.
unfoldable pub wave : ℕ → ℕ → List (Option ℕ)
wave zero k = []
wave (suc n) k = get_elem? cos_wave_100 (played k) ∷ wave n (k + 1)

abbrev pub as_samples : List ℕ → List (Option ℕ)
as_samples [] = []
as_samples (v ∷ vs) = some v ∷ as_samples vs

play_lem :
    (n k : ℕ) (reads : List ℕ)
    → ((play n (played k) reads).outcome ≡ done (played (k + n)))
      × (as_samples (voltages (play n (played k) reads).trace) ≡ wave n k)
unfolding play wave
play_lem zero k reads = (rw (k_zero k) refl, refl)
  where
    k_zero : (k : ℕ) → k + 0 ≡ k
    k_zero k = omega arith
play_lem (suc n) k reads =
    let (ends, (v, written, found, small)) = round_plays k reads in
    let more = play_lem n (k + 1) (next_sample (played k) reads).rest in
    let at : k + 1 + n ≡ k + suc n = omega arith in
    (
      rw ends (more.0 ∙ ap (λ i. done (played i)) at),
      rw (ends, voltages-append, written, found) (ap (λ t. some v ∷ t) more.1),
    )

poll_writes_none : (f : Field) (reads : List ℕ) → voltages (poll f is_set reads).trace ≡ []
unfolding poll
poll_writes_none f [] = refl
poll_writes_none f (zero ∷ reads) = poll_writes_none f reads
poll_writes_none f (suc v ∷ reads) = refl

setup_rcc_lem :
    {reads r1 r2 r3 r4 : List ℕ}
    → Polled is_set reads r1
    → Polled is_set r1 r2
    → Polled is_set r2 r3
    → Polled is_set r3 r4
    → let r = setup_rcc reads in (r.outcome ≡ done tt) × (r.rest ≡ r4) × (voltages r.trace ≡ [])
unfolding setup_rcc
setup_rcc_lem {reads} {r1} {r2} {r3} {r4} p1 p2 p3 p4 =
    let (e1, l1) = poll-Polled Dac.hserdy p1 in
    let (e2, l2) = poll-Polled Dac.vosrdy p2 in
    let (e3, l3) = poll-Polled Dac.pllrdy p3 in
    let (e4, l4) = poll-Polled Dac.sws_is_pll p4 in
    (
      rw (e1, l1, e2, l2, e3, l3) e4,
      rw (e1, l1, e2, l2, e3, l3) l4,
      rw (e1, l1, e2, l2, e3, l3, voltages-append, poll_writes_none Dac.hserdy reads)
          (rw (voltages-append, poll_writes_none Dac.vosrdy r1)
            (rw (voltages-append, poll_writes_none Dac.pllrdy r2)
              (poll_writes_none Dac.sws_is_pll r3))),
    )

-- Where the four waits of the set-up end, the oscillator's, the regulator's, the PLL's and that of
-- the clock switch, the program reaches its loop, and its first n rounds never panic and write exactly
-- n numbers to the DAC: the whole table once, and from then on its samples from the second to the last,
-- again and again.
pub main_plays :
    (n : ℕ) {reads r1 r2 r3 r4 : List ℕ}
    → Polled is_set reads r1
    → Polled is_set r1 r2
    → Polled is_set r2 r3
    → Polled is_set r3 r4
    → let r = main n reads in
      (r.outcome ≡ done (played n)) × (as_samples (voltages r.trace) ≡ wave n 0)
unfolding main setup_gpio setup_dac
main_plays n {r4 = r4} p1 p2 p3 p4 =
    let (ends, left, silent) = setup_rcc_lem p1 p2 p3 p4 in
    let loop = play_lem n 0 r4 in
    let start : 0 + n ≡ n = omega arith in
    (
      rw (ends, left) (loop.0 ∙ ap (λ i. done (played i)) start),
      rw (ends, left, voltages-append, silent) loop.1,
    )
