-- ===== src/Adc/Numbers.antt =====
-- The lines that s09_adc/src/bin/s09c01_adc_basic_setup.rs logs.
use rust_on_stm32_notebook.Common.{
  ℕ, suc, zero, ◌+◌, ◌%◌, ◌^◌, ◌<◌, ◌≡◌, refl, ap, true, List, [], ◌∷◌, ltb, length, arith,
}
use rust_on_stm32_notebook.Hardware.{Outcome, done, M, pure, ◌>>=◌}
use rust_on_stm32_notebook.Adc
use rust_on_stm32_notebook.Adc.{Volts, voltage, Logged, next_count, complete, adc}

-- The line of a conversion, and what a series of interrupts leaves.
pub record Line : Type 0 where
  pub count : ℕ
  pub volts : Volts

pub record After : Type 0 where
  pub count : ℕ
  pub lines : List Line

-- n interrupts
unfoldable pub session : ℕ → ℕ → M Adc.Field After
session zero count = pure (record { count = count; lines = [] })
session (suc n) count = do
  r ← adc count
  after ← session n r.next
  pure (record {
    count = after.count;
    lines = record { count = r.count; volts = r.volts } ∷ after.lines;
  })

-- The answers to a series of finished conversions: the flag, and the value.
abbrev pub conversions : List ℕ → List ℕ
conversions [] = []
conversions (v ∷ vs) = 1 ∷ v ∷ conversions vs

abbrev pub numbered : ℕ → List ℕ → List Line
numbered count [] = []
numbered count (v ∷ vs) =
    record { count = count; volts = voltage (v % 2 ^ 16) } ∷ numbered (count + 1) vs

adc_lem :
    (count v : ℕ) (reads : List ℕ)
    → count + 1 < 2 ^ 32
    → ((adc count (1 ∷ v ∷ reads)).outcome
        ≡ done (record { next = count + 1; count = count; volts = voltage (v % 2 ^ 16) }))
      × ((adc count (1 ∷ v ∷ reads)).rest ≡ reads)
unfolding adc complete next_count
adc_lem count v reads h = rw (below_top (count + 1) h) (refl, refl)
  where
    below_top : (n : ℕ) → n < 2 ^ 32 → ltb n (2 ^ 32) ≡ true
    below_top n h = ground arith

abbrev ended : ℕ → List Line → Outcome After
ended count lines = done (record { count = count; lines = lines })

-- As many interrupts as there are finished conversions log their voltages in order, numbered from the
-- counter on, which they leave advanced by their number, as long as it stays below 2 ^ 32.
pub session_numbers_voltages :
    (values : List ℕ) (count : ℕ)
    → count + length values < 2 ^ 32
    → (session (length values) count (conversions values)).outcome
      ≡ done (record { count = count + length values; lines = numbered count values })
unfolding session
session_numbers_voltages [] count h = ap (λ k. ended k []) (omega arith)
session_numbers_voltages (v ∷ vs) count h =
    let (p, q) = adc_lem count v (conversions vs) (omega arith) in
    rw (p, q, session_numbers_voltages vs (count + 1) (omega arith))
      (ap (λ k. ended k (numbered count (v ∷ vs))) (omega arith))
