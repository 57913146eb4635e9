-- ===== src/Clock/Waits.antt =====
-- What the programs of s01_rcc/src/bin count while they wait.
use rust_on_stm32_notebook.Common.{
  ℕ, zero, suc, ◌+◌, ◌^◌, ◌<◌, ◌≡◌, refl, ap, ◌∙◌, true, List, ◌∷◌, ltb, arith,
}
use rust_on_stm32_notebook.Hardware.{done, poll_count, M, ◌>>=◌}
use rust_on_stm32_notebook.Hardware.Laws.{>>=-outcome}
use rust_on_stm32_notebook.Clock
use rust_on_stm32_notebook.Clock.{WaitCounts, count_waits, sum_waits, configure_pll}
use rust_on_stm32_notebook.Clock.Rearranged

-- The answers to a wait: n times not ready, then ready.
abbrev pub waits : ℕ → List ℕ → List ℕ
waits zero rest = 1 ∷ rest
waits (suc n) rest = 0 ∷ waits n rest

below_top : (a : ℕ) → a < 2 ^ 32 → ltb a (2 ^ 32) ≡ true
below_top a h = ground arith

count_waits_lem :
    (f : Clock.Field) (n count : ℕ) (rest : List ℕ)
    → count + n < 2 ^ 32
    → ((count_waits f count (waits n rest)).outcome ≡ done (count + n))
      × ((count_waits f count (waits n rest)).rest ≡ rest)
unfolding poll_count
count_waits_lem f zero count rest h = (ap done (omega arith), refl)
count_waits_lem f (suc n) count rest h =
    let (p, q) = count_waits_lem f n (count + 1) rest (omega arith) in
    rw (below_top (count + 1) (omega arith)) (p ∙ ap done (omega arith), q)

sum_waits_lem :
    (a b c d : ℕ) (reads : List ℕ)
    → a + b + c + d < 2 ^ 32
    → (sum_waits a b c d reads).outcome
      ≡ done (record { hse = a; vos = b; pll = c; sysclk = d; total = a + b + c + d })
unfolding sum_waits
sum_waits_lem a b c d reads h =
    rw
      (
        below_top (a + b) (omega arith),
        below_top (a + b + c) (omega arith),
        below_top (a + b + c + d) h,
      )
      refl

-- a counted wait that starts at 0, and what follows
after_wait :
    {B : Type 0} (f : Clock.Field) (k : ℕ → M Clock.Field B) (n : ℕ) (rest : List ℕ)
    → n < 2 ^ 32
    → ((count_waits f 0 >>= k) (waits n rest)).outcome ≡ (k n rest).outcome
after_wait f k n rest h =
    let (p, q) = count_waits_lem f n 0 rest (omega arith) in
    >>=-outcome (count_waits f 0) k (waits n rest) rest n (p ∙ ap done (omega arith)) q

abbrev pub counts : ℕ → ℕ → ℕ → ℕ → WaitCounts
counts a b c d = record { hse = a; vos = b; pll = c; sysclk = d; total = a + b + c + d }

abbrev pub four_waits : ℕ → ℕ → ℕ → ℕ → List ℕ → List ℕ
four_waits a b c d rest = waits a (waits b (waits c (waits d rest)))

-- Where HSE, the voltage, the PLL and the switch are ready after a, b, c and d answers that they are
-- not, together fewer than 2 ^ 32, both programs that log their waits reach their endless loop, and
-- they log these four numbers and their sum: the rearranged program counts by the same rule.
pub both_count_waits :
    (a b c d : ℕ) (rest : List ℕ)
    → a + b + c + d < 2 ^ 32
    → ((Clock.main (four_waits a b c d rest)).outcome ≡ done (counts a b c d))
      × ((Rearranged.main (four_waits a b c d rest)).outcome ≡ done (counts a b c d))
unfolding Clock.main Rearranged.main configure_pll
both_count_waits a b c d rest h =
    let ends =
      after_wait Clock.sws_is_pll (λ (n : ℕ). sum_waits a b c n) d rest (omega arith)
      ∙ sum_waits_lem a b c d rest h in
    (
      after_wait Clock.hserdy _ a (waits b (waits c (waits d rest))) (omega arith)
          ∙ after_wait Clock.vosrdy _ b (waits c (waits d rest)) (omega arith)
          ∙ after_wait Clock.pllrdy _ c (waits d rest) (omega arith)
          ∙ ends,
      after_wait Clock.hserdy _ a (waits b (waits c (waits d rest))) (omega arith)
          ∙ after_wait Clock.vosrdy _ b (waits c (waits d rest)) (omega arith)
          ∙ after_wait Clock.pllrdy _ c (waits d rest) (omega arith)
          ∙ ends,
    )
