-- ===== src/Hardware/Laws.antt =====
-- Facts about register-level programs that the components share.
use rust_on_stm32_notebook.Common.{◌≡◌, ◌≤◌, refl, arith, List, [], ◌∷◌}
use rust_on_stm32_notebook.Common.{◌+◌, ℕ, suc, zero, Bool, true, false}
use rust_on_stm32_notebook.Hardware.{
  Effect, Outcome, M, done, panic, waiting, chain, ◌>>=◌, poll, is_set, count_set,
}

-- A poll for a set flag ends if some answer has the flag, and uses up exactly one such answer.
pub poll_ends :
    {F : Type 0} (f : F) (reads : List ℕ)
    → 1 ≤ count_set reads
    → ((poll f is_set reads).outcome ≡ done tt)
      × (count_set (poll f is_set reads).rest + 1 ≡ count_set reads)
unfolding poll
poll_ends f [] h = absurd (omega arith)
poll_ends f (zero ∷ reads) h = poll_ends f reads h
poll_ends f (suc v ∷ reads) h = (refl, omega arith)

-- The answers of a poll that ends: some that do not pass the test, then one that does.
pub data Polled (stop : ℕ → Bool) : List ℕ → List ℕ → Type 0 where
  hit : {v : ℕ} {rest : List ℕ} → stop v ≡ true → Polled stop (v ∷ rest) rest
  miss :
      {v : ℕ} {reads rest : List ℕ}
      → stop v ≡ false
      → Polled stop reads rest
      → Polled stop (v ∷ reads) rest

pub poll-Polled :
    {F : Type 0} (f : F) {stop : ℕ → Bool} {reads rest : List ℕ}
    → Polled stop reads rest
    → ((poll f stop reads).outcome ≡ done tt) × ((poll f stop reads).rest ≡ rest)
unfolding poll
poll-Polled f (hit h) = rw h (refl, refl)
poll-Polled f (miss h p) = rw h (poll-Polled f p)

-- A first effect stays in front of what follows.
pub chain-cons :
    {F A B : Type 0} (o : Outcome A) (x : Effect F) (t : List (Effect F)) (rest : List ℕ)
    (f : A → M F B)
    → chain o (x ∷ t) rest f ≡ record {
      outcome = (chain o t rest f).outcome;
      trace = x ∷ (chain o t rest f).trace;
      rest = (chain o t rest f).rest;
    }
chain-cons (done a) x t rest f = refl
chain-cons panic x t rest f = refl
chain-cons waiting x t rest f = refl

-- What follows a part that ends depends on it only by its value and the answers that it leaves.
pub >>=-outcome :
    {F A B : Type 0} (m : M F A) (f : A → M F B) (reads rest : List ℕ) (a : A)
    → (m reads).outcome ≡ done a
    → (m reads).rest ≡ rest
    → ((m >>= f) reads).outcome ≡ (f a rest).outcome
>>=-outcome m f reads rest a e r = rw (e, r) refl
