-- ===== src/Lcd/Driver.antt =====
-- Reasoning about runs of the drivers of s11_lcd1602 as the display sees them, for any width of bus.
use rust_on_stm32_notebook.Common.{
  ℕ, ◌≡◌, refl, sym, Bool, false, List, [], ◌∷◌, ◌++◌, append_assoc, append-nil, arith, Bool-cases,
  inl, inr,
}
use rust_on_stm32_notebook.Hardware.{Effect, modify, M, done, pure, poll, write, bits, ◌>>=◌, ◌>>◌}
use rust_on_stm32_notebook.Hardware.Laws.{Polled, poll-Polled}
use rust_on_stm32_notebook.Lcd
use rust_on_stm32_notebook.Lcd.{Field, delay, count_flag, idle_rounds, idle_loop}
use rust_on_stm32_notebook.Lcd.Panel.{Pins, Latch, after, final, edge, latches, Safe}

final-append : (p : Pins) (s t : List (Effect Field)) → final p (s ++ t) ≡ final (final p s) t
final-append p [] t = refl
final-append p (x ∷ s) t = final-append (after x p) s t

latches-append :
    (bus : Pins → ℕ) (p : Pins) (s t : List (Effect Field))
    → latches bus p (s ++ t) ≡ latches bus p s ++ latches bus (final p s) t
latches-append bus p [] t = refl
latches-append bus p (x ∷ s) t =
    rw (latches-append bus (after x p) s t) (sym (append_assoc (edge bus p (after x p)) _ _))

Safe-append :
    (clash : Pins → Bool) (p : Pins) (s t : List (Effect Field))
    → Safe clash p s
    → Safe clash (final p s) t
    → Safe clash p (s ++ t)
Safe-append clash p [] t a b = b
Safe-append clash p (x ∷ s) t a b = (a.0, Safe-append clash (after x p) s t a.1 b)

-- How wide the bus is: the number on it, when the two sides drive it at once, and the pins between
-- two transfers.
pub record Width : Type 1 where
  pub bus : Pins → ℕ
  pub clash : Pins → Bool
  pub Ready : Pins → Type 0
  -- between two transfers nothing clashes
  pub calm : {p : Pins} → Ready p → clash p ≡ false

edge_same : (bus : Pins → ℕ) (p : Pins) → edge bus p p ≡ []
edge_same bus p = ground arith

-- A poll changes no pin.
module _ (bus : Pins → ℕ) (f : Field) (stop : ℕ → Bool) (p : Pins) where
  latches-poll : (reads : List ℕ) → latches bus p (poll f stop reads).trace ≡ []
  unfolding poll
  latches-poll [] = refl
  latches-poll (v ∷ reads) = elim (Bool-cases (stop v)) [
    | inl h ↦ rw (h, append-nil) (edge_same bus p)
    | inr h ↦ rw h (rw (edge_same bus p, latches-poll reads))
  ]

  final-poll : (reads : List ℕ) → final p (poll f stop reads).trace ≡ p
  unfolding poll
  final-poll [] = refl
  final-poll (v ∷ reads) = elim (Bool-cases (stop v)) [
    | inl h ↦ rw h
    | inr h ↦ rw h (final-poll reads)
  ]

Safe-poll :
    (clash : Pins → Bool) (f : Field) (stop : ℕ → Bool) (p : Pins) (reads : List ℕ)
    → clash p ≡ false
    → Safe clash p (poll f stop reads).trace
unfolding poll
Safe-poll clash f stop p [] c = tt
Safe-poll clash f stop p (v ∷ reads) c = elim (Bool-cases (stop v)) [
  | inl h ↦ rw h (c, tt)
  | inr h ↦ rw h (c, Safe-poll clash f stop p reads c)
]

module _ (w : Width) where
  -- A run from the pins `p` on the given answers ends with `a`, leaves the answers `rest`, and the
  -- display has taken `ls`; nothing drives the bus against the display.
  pub record Does {A : Type 0} (m : M Field A) (reads : List ℕ) (p : Pins) (a : A) (rest : List ℕ)
      (ls : List Latch) : Type 0 where
    pub outcome : (m reads).outcome ≡ done a
    pub leaves : (m reads).rest ≡ rest
    pub takes : latches w.bus p (m reads).trace ≡ ls
    pub ready : w.Ready (final p (m reads).trace)
    pub safe : Safe w.clash p (m reads).trace

  module _ {A B : Type 0} (m : M Field A) (f : A → M Field B) {a : A} {b : B}
      {reads rest last : List ℕ} {p : Pins} {ls ks : List Latch} where
    -- The first part may end in pins that are not ready.
    pub prefix-Does :
        (m reads).outcome ≡ done a
        → (m reads).rest ≡ rest
        → latches w.bus p (m reads).trace ≡ ls
        → Safe w.clash p (m reads).trace
        → Does (f a) rest (final p (m reads).trace) b last ks
        → Does (m >>= f) reads p b last (ls ++ ks)
    prefix-Does outcome leaves takes safe c =
        let whole : (m >>= f) reads ≡ record {
          outcome = (f a rest).outcome;
          trace = (m reads).trace ++ (f a rest).trace;
          rest = (f a rest).rest;
        } =
          rw (outcome, leaves) refl in
        record {
          outcome = rw whole c.outcome;
          leaves = rw whole c.leaves;
          takes = rw (whole, latches-append, takes, c.takes) refl;
          ready = rw (whole, final-append) c.ready;
          safe = rw whole (Safe-append w.clash p _ _ safe c.safe);
        }

  module _ {A B : Type 0} {m : M Field A} (f : A → M Field B) {a : A} {b : B}
      {reads rest last : List ℕ} {p : Pins} {ls ks : List Latch} where
    pub >>=-Does :
        (d : Does m reads p a rest ls)
        → Does (f a) rest (final p (m reads).trace) b last ks
        → Does (m >>= f) reads p b last (ls ++ ks)
    >>=-Does d c = prefix-Does m f d.outcome d.leaves d.takes d.safe c

  pub pure-Does :
      {A : Type 0} (a : A) (reads : List ℕ) {p : Pins}
      → w.Ready p
      → Does (pure a) reads p a reads []
  pure-Does a reads r = record { outcome = refl; leaves = refl; takes = refl; ready = r; safe = tt }

  -- A write of a register that is no pin.
  write-Does :
      (field : Field) (n : ℕ) (reads : List ℕ) {p : Pins}
      → w.Ready p
      → after (modify ((field, bits n) ∷ [])) p ≡ p
      → Does (write ((field, bits n) ∷ [])) reads p tt reads []
  write-Does field n reads {p} r same = record {
    outcome = refl;
    leaves = refl;
    takes = rw (same, append-nil) (edge_same w.bus p);
    ready = rw same r;
    safe = (rw same (w.calm r), tt);
  }

  poll-Does :
      (f : Field) (stop : ℕ → Bool) {reads rest : List ℕ} {p : Pins}
      → w.Ready p
      → Polled stop reads rest
      → Does (poll f stop) reads p tt rest []
  poll-Does f stop {reads} {rest} {p} r h = record {
    outcome = (poll-Polled f h).0;
    leaves = (poll-Polled f h).1;
    takes = latches-poll w.bus f stop p reads;
    ready = rw (final-poll w.bus f stop p reads) r;
    safe = Safe-poll w.clash f stop p reads (w.calm r);
  }

  pub delay-Does :
      (n : ℕ) {reads rest : List ℕ} {p : Pins}
      → w.Ready p
      → Polled count_flag reads rest
      → Does (delay n) reads p tt rest []
  unfolding delay
  delay-Does n r h =
      let a = write-Does Lcd.rvr n _ r refl in
      let b = write-Does Lcd.csr 1 _ a.ready refl in
      >>=-Does (λ _. write ((Lcd.csr, bits 1) ∷ []) >> poll Lcd.csr count_flag) a
        (>>=-Does (λ _. poll Lcd.csr count_flag) b (poll-Does Lcd.csr count_flag b.ready h))
