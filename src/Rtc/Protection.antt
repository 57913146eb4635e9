-- ===== src/Rtc/Protection.antt =====
-- The write protection of the RTC registers in s07_rtc/src/bin/s07c02_rtc_across_reset.rs. After a
-- reset they are locked; the keys 0xCA and 0x53 in a row unlock them, any other key locks them.
use rust_on_stm32_notebook.Common.{
  ℕ, zero, suc, ◌≡◌, ◌==◌, refl, Bool, true, false, ◌||◌, if◌then◌else◌, List, [], ◌∷◌, ◌++◌,
  Bool-cases, inl, inr, not,
}
use rust_on_stm32_notebook.Hardware.{
  Value, bits, Effect, modify, sample, M, done, poll, ◌>>◌, is_set,
}
use rust_on_stm32_notebook.Hardware.Laws.{chain-cons, Polled, poll-Polled}
use rust_on_stm32_notebook.Rtc
use rust_on_stm32_notebook.Rtc.{Field}
use rust_on_stm32_notebook.Rtc.Setup.{set_alarm, set_calendar, enter_init, set_clock, init_rtc}

pub data Lock : Type 0 where
  locked half unlocked : Lock

-- The fields under protection. The alarm flag is not.
abbrev pub is_protected : Field → Bool
is_protected Rtc.init = true
is_protected Rtc.prediv_s = true
is_protected Rtc.prediv_a = true
is_protected Rtc.yt = true
is_protected Rtc.yu = true
is_protected Rtc.mt = true
is_protected Rtc.mu = true
is_protected Rtc.dt = true
is_protected Rtc.du = true
is_protected Rtc.wdu = true
is_protected Rtc.ht = true
is_protected Rtc.hu = true
is_protected Rtc.mnt = true
is_protected Rtc.mnu = true
is_protected Rtc.st = true
is_protected Rtc.su = true
is_protected Rtc.pm = true
is_protected Rtc.fmt = true
is_protected Rtc.alraie = true
is_protected Rtc.alrae = true
is_protected Rtc.msk1 = true
is_protected Rtc.msk2 = true
is_protected Rtc.msk3 = true
is_protected Rtc.msk4 = true
is_protected _ = false

abbrev pub is_unlocked : Lock → Bool
is_unlocked unlocked = true
is_unlocked _ = false

abbrev key : ℕ → Lock → Lock
key k half = if k == 0x53 then unlocked else (if k == 0xCA then half else locked)
key k _ = if k == 0xCA then half else locked

-- The lock after an access.
abbrev pub lock_after : Lock → List (Field × Value) → Lock
lock_after l [] = l
lock_after l ((Rtc.wpr_key, bits k) ∷ fields) = lock_after (key k l) fields
lock_after l (_ ∷ fields) = lock_after l fields

abbrev pub any_protected : List (Field × Value) → Bool
any_protected [] = false
any_protected ((f, v) ∷ fields) = is_protected f || any_protected fields

abbrev allowed : Lock → List (Field × Value) → Bool
allowed l fields = if any_protected fields then is_unlocked l else true

-- No protected field is written while the registers are locked.
unfoldable pub guarded : Lock → List (Effect Field) → Bool
guarded l [] = true
guarded l (modify fields ∷ t) =
    let rest = guarded (lock_after l fields) t in if allowed l fields then rest else false
guarded l (sample f v ∷ t) = guarded l t

-- The lock at the end of a run.
unfoldable pub lock_at_end : Lock → List (Effect Field) → Lock
lock_at_end l [] = l
lock_at_end l (modify fields ∷ t) = lock_at_end (lock_after l fields) t
lock_at_end l (sample f v ∷ t) = lock_at_end l t

-- A run that respects the lock from `l` on, and if it ends leaves the lock at `l'`.
pub record Keeps {A : Type 0} (l l' : Lock) (m : M Field A) (reads : List ℕ) : Type 0 where
  pub safe : guarded l (m reads).trace ≡ true
  pub leaves : (a : A) → (m reads).outcome ≡ done a → lock_at_end l (m reads).trace ≡ l'

-- A poll leaves the lock as it is.
pub poll-Keeps :
    {A : Type 0} (f : Field) (l l' : Lock) (k : M Field A)
    → ((reads : List ℕ) → Keeps l l' k reads)
    → (reads : List ℕ) → Keeps l l' (poll f is_set >> k) reads
unfolding poll guarded lock_at_end
poll-Keeps f l l' k h [] = record { safe = refl; leaves = λ a e. cc }
poll-Keeps f l l' k h (zero ∷ reads) =
    let r = poll f is_set reads in
    let e = chain-cons r.outcome (sample f 0) r.trace r.rest (λ _. k) in
    let ih = poll-Keeps f l l' k h reads in
    record { safe = rw e ih.safe; leaves = λ a d. rw e (ih.leaves a (rw e at d)) }
poll-Keeps f l l' k h (suc v ∷ reads) = record { safe = (h reads).safe; leaves = (h reads).leaves }

pub wait-Keeps : (f : Field) (l : Lock) (reads : List ℕ) → Keeps l l (poll f is_set) reads
unfolding poll guarded lock_at_end
wait-Keeps f l [] = record { safe = refl; leaves = λ a e. refl }
wait-Keeps f l (zero ∷ reads) =
    let ih = wait-Keeps f l reads in record { safe = ih.safe; leaves = ih.leaves }
wait-Keeps f l (suc v ∷ reads) = record { safe = refl; leaves = λ a e. refl }

set_alarm-Keeps : (reads : List ℕ) → Keeps unlocked locked set_alarm reads
unfolding set_alarm guarded lock_at_end
set_alarm-Keeps reads = record { safe = refl; leaves = λ a e. refl }

set_calendar-Keeps : (reads : List ℕ) → Keeps unlocked locked set_calendar reads
unfolding set_calendar guarded lock_at_end
set_calendar-Keeps reads =
    let p = poll-Keeps Rtc.may_set_alarm unlocked locked set_alarm set_alarm-Keeps reads in
    record { safe = p.safe; leaves = p.leaves }

enter_init-Keeps : (reads : List ℕ) → Keeps locked locked enter_init reads
unfolding enter_init guarded lock_at_end
enter_init-Keeps reads =
    let p = poll-Keeps Rtc.may_init unlocked locked set_calendar set_calendar-Keeps reads in
    record { safe = p.safe; leaves = p.leaves }

set_clock-Keeps : (reads : List ℕ) → Keeps locked locked set_clock reads
unfolding set_clock guarded lock_at_end
set_clock-Keeps reads =
    let p = poll-Keeps Rtc.lserdy locked locked enter_init enter_init-Keeps reads in
    record { safe = p.safe; leaves = p.leaves }

-- Whatever the hardware answers, also where a wait never ends, the set-up of the clock writes no
-- protected register of the RTC while it is locked.
pub init_rtc_unlocks_first : (reads : List ℕ) → guarded locked (init_rtc reads).trace ≡ true
unfolding init_rtc guarded
init_rtc_unlocks_first [] = refl
init_rtc_unlocks_first (zero ∷ reads) = (set_clock-Keeps reads).safe
init_rtc_unlocks_first (suc v ∷ reads) = refl

-- Some protected register is written.
unfoldable pub changes_clock : List (Effect Field) → Bool
changes_clock [] = false
changes_clock (modify fields ∷ t) = any_protected fields || changes_clock t
changes_clock (sample f v ∷ t) = changes_clock t

changes_clock-append :
    (s t : List (Effect Field)) → changes_clock t ≡ true → changes_clock (s ++ t) ≡ true
unfolding changes_clock
changes_clock-append [] t h = h
changes_clock-append (modify fields ∷ s) t h = elim (Bool-cases (any_protected fields)) [
  | inl y ↦ rw y
  | inr n ↦ rw n (changes_clock-append s t h)
]
changes_clock-append (sample f v ∷ s) t h = changes_clock-append s t h

set_clock_ends :
    {reads r1 r2 r3 : List ℕ}
    → Polled is_set reads r1
    → Polled is_set r1 r2
    → Polled is_set r2 r3
    → ((set_clock reads).outcome ≡ done tt) × (changes_clock (set_clock reads).trace ≡ true)
unfolding set_clock enter_init set_calendar set_alarm
set_clock_ends {reads} {r1} {r2} {r3} p q r =
    let (e1, l1) = poll-Polled Rtc.lserdy p in
    let (e2, l2) = poll-Polled Rtc.may_init q in
    let e3 = (poll-Polled Rtc.may_set_alarm r).0 in
    (
      rw (e1, l1) (rw (e2, l2) (rw e3 refl)),
      rw (e1, l1)
          (unfold changes_clock in
            changes_clock-append (poll Rtc.lserdy is_set reads).trace _ refl),
    )

-- Where the three waits end, for the oscillator and twice for the registers, the set-up ends and
-- leaves the registers locked. It changes the clock exactly if the RTC answers that it was never
-- initialised: a clock that was set before a reset keeps its time.
pub init_rtc_lem :
    (initialised : ℕ) {reads r1 r2 r3 : List ℕ}
    → Polled is_set reads r1
    → Polled is_set r1 r2
    → Polled is_set r2 r3
    → let r = init_rtc (initialised ∷ reads) in
      (r.outcome ≡ done tt)
      × (lock_at_end locked r.trace ≡ locked)
      × (changes_clock r.trace ≡ not (is_set initialised))
unfolding init_rtc lock_at_end changes_clock
init_rtc_lem zero {reads} p q r =
    let (ends, changes) = set_clock_ends p q r in
    (ends, (set_clock-Keeps reads).leaves tt ends, changes)
init_rtc_lem (suc v) p q r = (refl, refl, refl)
