-- ===== src/Watchdog/Dog.antt =====
-- The two watchdogs as the reference manual describes them, independently of the programs: what they make of
-- the writes that reach them, and of the clock cycles that pass. `none` is a reset of the controller.
use rust_on_stm32_notebook.Common.{
  ℕ, ◌+◌, ◌-◌, ◌*◌, ◌/◌, ◌%◌, ◌^◌, Bool, true, ◌&&◌, if◌then◌else◌, List, [], ◌∷◌, Option, none,
  some, ltb,
}
use rust_on_stm32_notebook.Hardware.{
  bits, enabled, on, reset_on, Effect, modify, done, panic, waiting, M,
}
use rust_on_stm32_notebook.Watchdog
use rust_on_stm32_notebook.Watchdog.{Field}

-- The window watchdog: whether it is active, its prescaler, its window, its counter, and the cycles of the
-- bus clock since the counter went down last.
pub record WindowDog : Type 0 where
  pub active : Bool
  pub prescale : ℕ
  pub window : ℕ
  pub counter : ℕ
  pub phase : ℕ

-- The counter goes down every 4096 * 2 ^ prescale cycles, and resets from 0x40 on down.
abbrev pub window_passes : ℕ → WindowDog → Option WindowDog
window_passes cycles d =
    let unit = 4096 * 2 ^ d.prescale in
    let steps = (d.phase + cycles) / unit in
    if ltb d.counter (steps + 0x40)
    then none
    else some (record d { counter = d.counter - steps; phase = (d.phase + cycles) % unit })

-- A reload while the counter is above the window resets.
abbrev pub window_reloads : ℕ → WindowDog → Option WindowDog
window_reloads v d =
    if d.active && ltb d.window d.counter then none else some (record d { counter = v })

abbrev pub window_takes : Effect Field → WindowDog → Option WindowDog
window_takes (modify ((Watchdog.wdgtb, bits p) ∷ (Watchdog.w, bits v) ∷ fs)) d =
    some (record d { prescale = p; window = v })
window_takes (modify ((Watchdog.t, bits v) ∷ fs)) d = window_reloads v d
window_takes (modify ((Watchdog.wdga, enabled) ∷ fs)) d = some (record d { active = true })
window_takes _ d = some d

-- The independent watchdog: whether it runs, its divider, its reload value, its counter, and the LSI cycles
-- since the counter went down last. It starts to count at 0xFFF, and at its reload value after a reload.
pub record LsiDog : Type 0 where
  pub active : Bool
  pub divider : ℕ
  pub reload : ℕ
  pub counter : ℕ
  pub phase : ℕ

-- The counter goes down every `divider` cycles, and resets below 0.
abbrev pub lsi_passes : ℕ → LsiDog → Option LsiDog
lsi_passes cycles d =
    let steps = (d.phase + cycles) / d.divider in
    if ltb d.counter steps
    then none
    else some (record d { counter = d.counter - steps; phase = (d.phase + cycles) % d.divider })

abbrev pub lsi_takes : Effect Field → LsiDog → Option LsiDog
lsi_takes (modify ((Watchdog.pr, bits v) ∷ fs)) d = some (record d { divider = v })
lsi_takes (modify ((Watchdog.rl, bits v) ∷ fs)) d = some (record d { reload = v })
lsi_takes (modify ((Watchdog.key, on) ∷ fs)) d = some (record d { active = true; counter = 0xFFF })
lsi_takes (modify ((Watchdog.key, reset_on) ∷ fs)) d = some (record d { counter = d.reload })
lsi_takes _ d = some d

module _ {D : Type 0} (takes : Effect Field → D → Option D) (passes : ℕ → D → Option D) where
  abbrev pub and_then : Option D → (D → Option D) → Option D
  and_then none f = none
  and_then (some d) f = f d

  -- The dog after a series of accesses.
  abbrev pub obey : List (Effect Field) → D → Option D
  obey [] d = some d
  obey (e ∷ t) d = and_then (takes e d) (obey t)

  -- The life of a dog under a handler: cycles pass, then the handler runs, and so on; a handler that does
  -- not end leads to a reset.
  abbrev pub fed : (handler : ℕ → M Field ℕ) → List ℕ → ℕ → D → Option D
  fed handler [] cnt d = some d
  fed handler (cycles ∷ next) cnt d = and_then (passes cycles d) (λ x.
      and_then (obey (handler cnt []).trace x) (λ y. elim (handler cnt []).outcome [
        | done c ↦ fed handler next c y
        | panic ↦ none
        | waiting ↦ none
      ]))
