-- ===== src/Us100/Numbering.antt =====
-- The numbers of the log lines of the US100 drivers, kept in the static G_CNT:
-- s06_tim/src/bin/s06c04_us100_driver_01freerun.rs and s06c04_us100_driver_02periodic.rs.
use rust_on_stm32_notebook.Common.{
  ℕ, zero, suc, ◌+◌, ◌^◌, ◌<◌, ◌≡◌, refl, ap, ◌⊎◌, inl, inr, Bool, true, false, if◌then◌else◌, List,
  [], ◌∷◌, Option, none, some, length, ltb, Bool-cases, arith,
}
use rust_on_stm32_notebook.Hardware.{Outcome, done, panic, waiting}
use rust_on_stm32_notebook.Us100.{
  Report, timer_overflow, distance_mm, measured, out_of_order, After, next_count,
}

unfoldable pub number : Report → ℕ
number (timer_overflow c) = c
number (distance_mm c d) = c
number (measured c d b e t) = c
number (out_of_order c b e) = c

unfoldable pub numbers : List Report → List ℕ
numbers [] = []
numbers (r ∷ rs) = number r ∷ numbers rs

unfoldable pub counting_from : ℕ → ℕ → List ℕ
counting_from c zero = []
counting_from c (suc k) = c ∷ counting_from (c + 1) k

-- G_CNT and the log lines after a sequence of interrupts
pub record Log : Type 0 where
  pub count : ℕ
  pub reports : List Report

abbrev pub with_report : Option Report → List Report → List Report
with_report none rs = rs
with_report (some r) rs = r ∷ rs

abbrev pub add_report : Option Report → Outcome Log → Outcome Log
add_report o (done l) = done (record { count = l.count; reports = with_report o l.reports })
add_report o panic = panic
add_report o waiting = waiting

module _ {E : Type 0} (handle : E → ℕ → Outcome After) where
  abbrev pub then_handle : Outcome After → (ℕ → Outcome Log) → Outcome Log
  then_handle (done a) k = add_report a.report (k a.count)
  then_handle panic k = panic
  then_handle waiting k = waiting

  unfoldable pub run : List E → ℕ → Outcome Log
  run [] c = done (record { count = c; reports = [] })
  run (e ∷ es) c = then_handle (handle e c) (λ n. run es n)

-- An interrupt without a line leaves the number; one with a line gives it the number and counts on.
abbrev pub Step : Outcome After → ℕ → Type 0
Step o c =
    (o ≡ done (record { count = c; report = none }))
    ⊎ ((r : Report) × ((number r ≡ c) × (o ≡ done (record { count = c + 1; report = some r }))))

-- A run ends, and its lines are numbered from c on without a gap.
abbrev pub IsNumbered : Outcome Log → ℕ → Type 0
IsNumbered o c =
    (l : Log) × ((o ≡ done l)
      × ((numbers l.reports ≡ counting_from c (length l.reports))
          × (l.count ≡ c + length l.reports)))

silent-IsNumbered : (o : Outcome Log) (c : ℕ) → IsNumbered o c → IsNumbered (add_report none o) c
silent-IsNumbered o c (l, (e, t)) = (l, (ap (add_report none) e, t))

line-IsNumbered :
    (o : Outcome Log) (c : ℕ) (r : Report)
    → number r ≡ c
    → IsNumbered o (c + 1)
    → IsNumbered (add_report (some r) o) c
unfolding numbers counting_from
line-IsNumbered o c r n (l, (e, (m, k))) = (
  record { count = l.count; reports = r ∷ l.reports },
  (ap (add_report (some r)) e, (rw (n, m), omega arith)),
)

unfoldable pub all : {A : Type 0} → (A → Bool) → List A → Bool
all p [] = true
all p (x ∷ xs) = let rest = all p xs in if p x then rest else false

module _ {E : Type 0} (handle : E → ℕ → Outcome After) (raised : E → Bool)
    (h : (e : E) (c : ℕ) → raised e ≡ true → c + 1 < 2 ^ 32 → Step (handle e c) c) where
  Step-IsNumbered :
      (es : List E) (e : E) (c : ℕ)
      → Step (handle e c) c
      → (IsNumbered (run handle es c) c)
      → (IsNumbered (run handle es (c + 1)) (c + 1))
      → IsNumbered (run handle (e ∷ es) c) c
  unfolding run
  Step-IsNumbered es e c (inl q) a b = rw q (silent-IsNumbered (run handle es c) c a)
  Step-IsNumbered es e c (inr (r, (n, q))) a b =
      rw q (line-IsNumbered (run handle es (c + 1)) c r n b)

  pub run-IsNumbered :
      (es : List E) (c : ℕ)
      → all raised es ≡ true
      → c + length es < 2 ^ 32
      → IsNumbered (run handle es c) c
  unfolding run numbers counting_from all
  run-IsNumbered [] c p l = (record { count = c; reports = [] }, (refl, (refl, omega arith)))
  run-IsNumbered (e ∷ es) c p l = elim (Bool-cases (raised e)) [
    | inl r ↦
        Step-IsNumbered es e c (h e c r (omega arith))
          (run-IsNumbered es c (rw r at p) (omega arith))
          (run-IsNumbered es (c + 1) (rw r at p) (omega arith))
    | inr r ↦ absurd (cc (rw r at p))
  ]

lt→ltb : (a b : ℕ) → a < b → ltb a b ≡ true
lt→ltb a b h = ground arith

pub next_count-done :
    (debug : Bool) (c : ℕ) (r : Option Report) (reads : List ℕ)
    → c + 1 < 2 ^ 32
    → (next_count debug c r reads).outcome ≡ done (record { count = c + 1; report = r })
unfolding next_count
next_count-done debug c r reads l = rw (lt→ltb (c + 1) (2 ^ 32) l) refl
