-- ===== src/Lcd/Idle.antt =====
-- Waiting until the display of s11_lcd1602 is idle, for any width of bus and any way to read its flag.
use rust_on_stm32_notebook.Common.{
  ℕ, zero, suc, ◌/◌, ◌%◌, ◌^◌, ◌<◌, ◌==◌, ◌≡◌, Bool, true, false, List, [], arith, length,
  if◌then◌else◌,
}
use rust_on_stm32_notebook.Hardware.{M, pure, ◌>>◌}
use rust_on_stm32_notebook.Hardware.Laws.{Polled, hit, miss}
use rust_on_stm32_notebook.Lcd.{Field, delay, count_flag, idle_rounds, idle_loop}
use rust_on_stm32_notebook.Lcd.Panel.{Pins}
use rust_on_stm32_notebook.Lcd.Driver.{Width, Does, >>=-Does, pure-Does, delay-Does}

module _ (w : Width) where
  -- The answers of a wait for an idle display: rounds that find it busy, each with a pause, then one
  -- that does not. `Busy` and `Free` are the answers of one round.
  module _ (Busy Free : List ℕ → List ℕ → Type 0) where
    pub data Idles : List ℕ → List ℕ → Type 0 where
      free : {reads rest : List ℕ} → Free reads rest → Idles reads rest
      busy :
          {reads mid after_pause rest : List ℕ}
          → Busy reads mid
          → Polled count_flag mid after_pause
          → Idles after_pause rest
          → Idles reads rest

  length-Polled :
      {stop : ℕ → Bool} {reads rest : List ℕ} → Polled stop reads rest → length rest < length reads
  length-Polled (hit _) = omega arith
  length-Polled (miss _ h) = omega (arith, length-Polled h)

  -- One round: what reading the busy flag does on the answers of a busy and of a free display.
  pub record Round (flag : M Field ℕ) (Busy Free : List ℕ → List ℕ → Type 0) : Type 0 where
    pub shorter : {reads rest : List ℕ} → Busy reads rest → length rest < length reads
    pub on_Busy :
        {reads rest : List ℕ} {p : Pins}
        → w.Ready p
        → Busy reads rest
        → (s : ℕ) × Does w flag reads p s rest [] × ((s / 2 ^ 7 % 2 == 1) ≡ true)
    pub on_Free :
        {reads rest : List ℕ} {p : Pins}
        → w.Ready p
        → Free reads rest
        → (s : ℕ) × Does w flag reads p s rest [] × ((s / 2 ^ 7 % 2 == 1) ≡ false)

  module _ (flag : M Field ℕ) (Busy Free : List ℕ → List ℕ → Type 0) (round : Round flag Busy Free)
      (ms : ℕ) where
    idle_rounds-Does :
        {reads rest : List ℕ} {p : Pins}
        → w.Ready p
        → (n : ℕ) → Idles Busy Free reads rest
        → length reads < n
        → Does w (idle_rounds n flag (delay ms)) reads p tt rest []
    unfolding idle_rounds
    idle_rounds-Does r zero i h = absurd (omega arith)
    idle_rounds-Does {p = p} r (suc n) (free f) h =
        let s = round.on_Free {p = p} r f in
        >>=-Does w
          (λ state.
            if state / 2 ^ 7 % 2 == 1 then delay ms >> idle_rounds n flag (delay ms) else pure tt)
          s.1 (rw s.2 (pure-Does w tt _ s.1.ready))
    idle_rounds-Does {reads = reads} {rest = rest} {p = p} r (suc n)
          (busy {mid = mid} {after_pause = after_pause} b d i) h =
        let s = round.on_Busy {p = p} r b in
        let pause = delay-Does w ms s.1.ready d in
        >>=-Does w
          (λ state.
            if state / 2 ^ 7 % 2 == 1 then delay ms >> idle_rounds n flag (delay ms) else pure tt)
          s.1
          (rw s.2 (
            >>=-Does w (λ _. idle_rounds n flag (delay ms)) pause
              (idle_rounds-Does {reads = after_pause} {rest = rest} pause.ready n i
                (omega (arith, round.shorter b, length-Polled d)))))

    -- Waiting ends with the first answer of a free display, and the display takes nothing.
    pub idle_loop-Does :
        {reads rest : List ℕ} {p : Pins}
        → w.Ready p
        → Idles Busy Free reads rest
        → Does w (idle_loop flag (delay ms)) reads p tt rest []
    unfolding idle_loop
    idle_loop-Does {reads} r i =
        let d = idle_rounds-Does r (suc (length reads)) i (omega arith) in
        record {
          outcome = d.outcome;
          leaves = d.leaves;
          takes = d.takes;
          ready = d.ready;
          safe = d.safe;
        }
