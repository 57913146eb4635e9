-- ===== src/Systick/Counting.antt =====
-- What the two programs of s10_systick/src/bin count.
use rust_on_stm32_notebook.Common.{
  ℕ, zero, suc, ◌+◌, ◌-◌, ◌^◌, ◌<◌, ◌≡◌, refl, sym, ◌∙◌, true, List, [], ◌∷◌, ltb, length, arith,
}
use rust_on_stm32_notebook.Hardware.{done, panic, M, pure, is_set, ◌>>=◌}
use rust_on_stm32_notebook.Hardware.Laws.{Polled, hit, miss, poll-Polled}
use rust_on_stm32_notebook.Systick
use rust_on_stm32_notebook.Systick.{Field, setup_hse, next_cnt, count_rounds}
use rust_on_stm32_notebook.Systick.Exception.{sys_tick}

-- The numbers that n exceptions log.
unfoldable pub session : ℕ → ℕ → M Field (List ℕ)
session zero cnt = pure []
session (suc n) cnt = do next ← sys_tick cnt; more ← session n next; pure (next ∷ more)

-- The answers to the polls: for each round how often the flag is clear before it is set.
abbrev pub late : ℕ → List ℕ → List ℕ
late zero rest = 1 ∷ rest
late (suc k) rest = 0 ∷ late k rest

abbrev pub flags : List ℕ → List ℕ
flags [] = []
flags (k ∷ ks) = late k (flags ks)

late-Polled : (k : ℕ) (rest : List ℕ) → Polled is_set (late k rest) rest
late-Polled zero rest = hit refl
late-Polled (suc k) rest = miss refl (late-Polled k rest)

abbrev pub numbers : ℕ → ℕ → List ℕ
numbers zero cnt = []
numbers (suc n) cnt = (cnt + 1) ∷ numbers n (cnt + 1)

below_true : (a b : ℕ) → a < b → ltb a b ≡ true
below_true a b h = ground arith

session_lem : (n cnt : ℕ) → cnt + n < 2 ^ 32 → (session n cnt []).outcome ≡ done (numbers n cnt)
unfolding session sys_tick
session_lem zero cnt h = refl
session_lem (suc n) cnt h =
    rw (below_true (cnt + 1) (2 ^ 32) (omega arith))
      (rw (session_lem n (cnt + 1) (omega arith)) refl)

count_rounds_lem :
    (ks : List ℕ) (cnt : ℕ)
    → cnt + length ks < 2 ^ 31
    → (count_rounds (length ks) cnt (flags ks)).outcome ≡ done (numbers (length ks) cnt)
unfolding count_rounds next_cnt
count_rounds_lem [] cnt h = refl
count_rounds_lem (k ∷ ks) cnt h =
    let (p, q) = poll-Polled Systick.countflag (late-Polled k (flags ks)) in
    rw (p, q, below_true (cnt + 1) (2 ^ 31) (omega arith))
      (rw (count_rounds_lem ks (cnt + 1) (omega arith)) refl)

last_tick_panics :
    (k : ℕ) (rest : List ℕ) → (count_rounds 1 (2 ^ 31 - 1) (late k rest)).outcome ≡ panic
unfolding count_rounds next_cnt
last_tick_panics k rest =
    let (p, q) = poll-Polled Systick.countflag (late-Polled k rest) in rw p refl

main_counts :
    (ks : List ℕ) {r0 r1 : List ℕ}
    → Polled is_set r0 r1
    → Polled is_set r1 (flags ks)
    → length ks < 2 ^ 31
    → (Systick.main (length ks) r0).outcome ≡ done (numbers (length ks) 0)
unfolding Systick.main setup_hse
main_counts ks a b h =
    let (hse_ready, left) = poll-Polled Systick.hserdy a in
    let (switched, left') = poll-Polled Systick.sws_is_hse b in
    rw (hse_ready, left, switched, left') (rw (count_rounds_lem ks 0 (omega arith)) refl)

-- After however many reads the two waits for the clock end, and each tick comes, `main` of the polling program logs
-- the same numbers as so many exceptions, if they are fewer than 2 ^ 31; but at 2 ^ 31 - 1 the loop, which
-- counts on i32, panics at the next tick, and the exception, which counts on u32, goes on.
pub counts_agree :
    (ks : List ℕ) (k : ℕ) (rest : List ℕ) {r0 r1 : List ℕ}
    → Polled is_set r0 r1
    → Polled is_set r1 (flags ks)
    → length ks < 2 ^ 31
    → ((Systick.main (length ks) r0).outcome ≡ (session (length ks) 0 []).outcome)
      × (((count_rounds 1 (2 ^ 31 - 1) (late k rest)).outcome ≡ panic)
          × ((sys_tick (2 ^ 31 - 1) []).outcome ≡ done (2 ^ 31)))
unfolding sys_tick
counts_agree ks k rest a b h = (
  main_counts ks a b h ∙ sym (session_lem (length ks) 0 (omega arith)),
  (last_tick_panics k rest, refl),
)
