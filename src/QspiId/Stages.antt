-- ===== src/QspiId/Stages.antt =====
-- What the programs of s19_quadspi/src/bin that read identifications know of QUADSPI, and the accesses
-- that are allowed with it.
use rust_on_stm32_notebook.Common.{
  ℕ, zero, suc, ◌≡◌, refl, Bool, true, false, not, ◌&&◌, if◌then◌else◌, List, [], ◌∷◌,
}
use rust_on_stm32_notebook.Hardware.{
  Value, Effect, modify, sample, done, M, pure, write, poll, is_set, ◌>>=◌,
}
use rust_on_stm32_notebook.Hardware.Monitor.{
  respects, state_after, Keeps, pure-Keeps, write-Keeps, >>=-Keeps, write_then-Keeps,
  poll_set-Keeps,
}
use rust_on_stm32_notebook.QspiId.Setup
use rust_on_stm32_notebook.QspiId.Setup.{
  Field, use_hse, setup_gpio, setup_systick, reset_qspi, wait_not_busy, pause,
}

-- What is known of QUADSPI: `idle` when BUSY was last read as clear and nothing was started since;
-- `addressing` and `sending` when a command waits for its address or its data; `running` otherwise.
pub data Stage : Type 0 where
  idle running addressing sending : Stage

abbrev pub has : (Field → Bool) → List (Field × Value) → Bool
has p [] = false
has p ((f, v) ∷ fs) = let rest = has p fs in if p f then true else rest

abbrev pub is_admode : Field → Bool
is_admode Setup.admode = true
is_admode _ = false

abbrev pub is_dmode : Field → Bool
is_dmode Setup.dmode = true
is_dmode _ = false

abbrev pub is_fmode : Field → Bool
is_fmode Setup.fmode = true
is_fmode _ = false

abbrev pub is_instruction : Field → Bool
is_instruction Setup.instruction = true
is_instruction _ = false

-- A command with an address phase waits for its address, one that sends data for the data.
abbrev pub given : List (Field × Value) → Stage
given fs =
    if has is_admode fs
    then addressing
    else if has is_dmode fs && not (has is_fmode fs)
    then sending
    else running

abbrev pub stage_after : Effect Field → Stage → Stage
stage_after (sample Setup.busy zero) s = idle
stage_after (sample Setup.busy (suc v)) s = running
stage_after (modify ((Setup.address, v) ∷ fs)) s = running
stage_after (modify ((Setup.dr, v) ∷ fs)) s = running
stage_after (modify fs) s = if has is_instruction fs then given fs else s
stage_after _ s = s

abbrev pub is_idle : Stage → Bool
is_idle idle = true
is_idle _ = false

abbrev pub is_addressing : Stage → Bool
is_addressing addressing = true
is_addressing _ = false

abbrev pub is_sending : Stage → Bool
is_sending sending = true
is_sending _ = false

-- A length, alternate bytes and a command only while idle, an address and data only where the command
-- waits for them.
abbrev pub command_allowed : Effect Field → Stage → Bool
command_allowed (modify ((Setup.dl, v) ∷ fs)) s = is_idle s
command_allowed (modify ((Setup.alternate, v) ∷ fs)) s = is_idle s
command_allowed (modify ((Setup.address, v) ∷ fs)) s = is_addressing s
command_allowed (modify ((Setup.dr, v) ∷ fs)) s = is_sending s
command_allowed (modify fs) s = if has is_instruction fs then is_idle s else true
command_allowed _ s = true

abbrev pub KeepsStage : {A : Type 0} → Stage → Stage → M Field A → Type 0
KeepsStage = Keeps stage_after command_allowed

-- the rules of the monitor at these two functions
pub before :
    {B : Type 0} {k : M Field B} (s s' : Stage) (fields : List (Field × Value))
    → command_allowed (modify fields) s ≡ true
    → KeepsStage (stage_after (modify fields) s) s' k
    → KeepsStage s s' (write fields >>= λ _. k)
before = write_then-Keeps stage_after command_allowed

pub then_keep :
    {A B : Type 0} {m : M Field A} {f : A → M Field B} {s s' s'' : Stage}
    → KeepsStage s s' m
    → ((a : A) → KeepsStage s' s'' (f a))
    → KeepsStage s s'' (m >>= f)
then_keep = >>=-Keeps stage_after command_allowed

pub last :
    (s : Stage) (fields : List (Field × Value))
    → command_allowed (modify fields) s ≡ true
    → KeepsStage s (stage_after (modify fields) s) (write fields)
last = write-Keeps stage_after command_allowed

pub value : {A : Type 0} (s : Stage) (a : A) → KeepsStage s s (pure a)
value = pure-Keeps stage_after command_allowed

pub polled :
    (f : Field) (s : Stage)
    → ((v : ℕ) → command_allowed (sample f v) s ≡ true)
    → stage_after (sample f zero) s ≡ s
    → ((v : ℕ) → stage_after (sample f (suc v)) s ≡ s)
    → KeepsStage s s (poll f is_set)
polled f s = poll_set-Keeps stage_after command_allowed f s s

-- After a wait QUADSPI is idle, whatever was known before.
pub wait_not_busy-Keeps : (s : Stage) → KeepsStage s idle wait_not_busy
unfolding wait_not_busy poll respects state_after
wait_not_busy-Keeps s = record { safe = safe s; leaves = leaves s }
  where
    safe :
        (s : Stage) (reads : List ℕ)
        → respects stage_after command_allowed s (wait_not_busy reads).trace ≡ true
    safe s [] = refl
    safe s (zero ∷ reads) = refl
    safe s (suc v ∷ reads) = safe running reads

    leaves :
        (s : Stage) (reads : List ℕ) (a : Unit {0})
        → (wait_not_busy reads).outcome ≡ done a
        → state_after stage_after command_allowed s (wait_not_busy reads).trace ≡ idle
    leaves s [] a e = cc
    leaves s (zero ∷ reads) a e = refl
    leaves s (suc v ∷ reads) a e = leaves running reads a e

pub waited :
    {B : Type 0} {k : M Field B} (s s' : Stage)
    → KeepsStage idle s' k
    → KeepsStage s s' (wait_not_busy >>= λ _. k)
waited s s' q = then_keep (wait_not_busy-Keeps s) (λ _. q)
