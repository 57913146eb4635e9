-- ===== src/QspiId/Single.antt =====
-- What s19_quadspi/src/bin/s19c01_read_flash_id.rs keeps of the rules of Stages, part by part, with the set-up
-- that both programs share.
use rust_on_stm32_notebook.Common.{
  ℕ, zero, suc, ◌+◌, ◌%◌, ◌^◌, ◌≡◌, refl, true, Bool-cases, inl, inr, List, [], ◌∷◌, length, set,
  ltb,
}
use rust_on_stm32_notebook.Hardware.{Outcome, done, panic, waiting}
use rust_on_stm32_notebook.Hardware.Monitor.{respects, state_after}
use rust_on_stm32_notebook.QspiId
use rust_on_stm32_notebook.QspiId.{
  reboot, read_jedec_id, read_uid, read_device_id, log_words, read_words, uid_of, swap_all,
  cons_word,
}
use rust_on_stm32_notebook.QspiId.Setup
use rust_on_stm32_notebook.QspiId.Setup.{
  Field, use_hse, setup_gpio, setup_systick, reset_qspi, wait_not_busy, pause,
}
use rust_on_stm32_notebook.QspiId.Stages.{
  Stage, idle, running, addressing, stage_after, command_allowed, KeepsStage, before, then_keep,
  last, value, polled, waited,
}

pub use_hse-Keeps : (s : Stage) → KeepsStage s s use_hse
unfolding use_hse
use_hse-Keeps s = before s s _ refl (
    then_keep (polled Setup.hserdy s (λ v. refl) refl (λ v. refl))
      (λ _. before s s _ refl (polled Setup.sws_is_hse s (λ v. refl) refl (λ v. refl))))

pub setup_gpio-Keeps : (s : Stage) → KeepsStage s s setup_gpio
unfolding setup_gpio
setup_gpio-Keeps s = before s s _ refl (
    before s s _ refl (
      before s s _ refl
        (before s s _ refl (before s s _ refl (before s s _ refl (last s _ refl))))))

pub setup_systick-Keeps : (s : Stage) → KeepsStage s s setup_systick
unfolding setup_systick
setup_systick-Keeps s = before s s _ refl (last s _ refl)

pub reset_qspi-Keeps : (s : Stage) → KeepsStage s s reset_qspi
unfolding reset_qspi
reset_qspi-Keeps s = before s s _ refl (before s s _ refl (before s s _ refl (last s _ refl)))

pub pause-Keeps : (s : Stage) → KeepsStage s s pause
unfolding pause
pause-Keeps s =
    before s s _ refl
      (then_keep (polled Setup.countflag s (λ v. refl) refl (λ v. refl)) (λ _. last s _ refl))

-- A loop that reads words until QUADSPI is not busy leaves it idle.
log_words-Keeps : KeepsStage running idle log_words
unfolding log_words respects state_after
log_words-Keeps = record { safe = safe; leaves = leaves }
  where
    safe :
        (reads : List ℕ)
        → respects stage_after command_allowed running (log_words reads).trace ≡ true
    safe [] = refl
    safe (zero ∷ reads) = refl
    safe (suc b ∷ []) = refl
    safe (suc b ∷ w ∷ reads) = safe reads

    ends :
        (w : ℕ) (o : Outcome (List ℕ)) (ws : List ℕ)
        → cons_word w o ≡ done ws
        → (vs : List ℕ) × (o ≡ done vs)
    ends w (done vs) ws e = (vs, refl)
    ends w panic ws e = cc
    ends w waiting ws e = cc

    leaves :
        (reads ws : List ℕ)
        → (log_words reads).outcome ≡ done ws
        → state_after stage_after command_allowed running (log_words reads).trace ≡ idle
    leaves [] ws e = cc
    leaves (zero ∷ reads) ws e = refl
    leaves (suc b ∷ []) ws e = cc
    leaves (suc b ∷ w ∷ reads) ws e =
        let (vs, q) = ends (w % 2 ^ 32) (log_words reads).outcome ws e in leaves reads vs q

read_words-Keeps : (cnt : ℕ) (uid_list : List ℕ) → KeepsStage running idle (read_words cnt uid_list)
unfolding read_words respects state_after
read_words-Keeps cnt uid_list = record { safe = safe cnt uid_list; leaves = leaves cnt uid_list }
  where
    safe :
        (cnt : ℕ) (us reads : List ℕ)
        → respects stage_after command_allowed running (read_words cnt us reads).trace ≡ true
    safe cnt us [] = refl
    safe cnt us (zero ∷ reads) = refl
    safe cnt us (suc b ∷ []) = refl
    safe cnt us (suc b ∷ w ∷ reads) = elim (Bool-cases (ltb cnt (length us))) [
      | inl e ↦ rw e (safe (cnt + 1) (set us cnt (w % 2 ^ 32)) reads)
      | inr e ↦ rw e refl
    ]

    leaves :
        (cnt : ℕ) (us reads ws : List ℕ)
        → (read_words cnt us reads).outcome ≡ done ws
        → state_after stage_after command_allowed running (read_words cnt us reads).trace ≡ idle
    leaves cnt us [] ws e = cc
    leaves cnt us (zero ∷ reads) ws e = refl
    leaves cnt us (suc b ∷ []) ws e = cc
    leaves cnt us (suc b ∷ w ∷ reads) ws e = elim (Bool-cases (ltb cnt (length us))) [
      | inl q ↦ rw q (leaves (cnt + 1) (set us cnt (w % 2 ^ 32)) reads ws (rw q at e))
      | inr q ↦ absurd (cc (rw q at e))
    ]

reboot-Keeps : (s : Stage) → KeepsStage s running reboot
unfolding reboot
reboot-Keeps s = waited s running (
    before idle running _ refl
      (waited running running (before idle running _ refl (pause-Keeps running))))

read_jedec_id-Keeps : KeepsStage running idle read_jedec_id
unfolding read_jedec_id
read_jedec_id-Keeps =
    waited running idle (before idle idle _ refl (before idle idle _ refl log_words-Keeps))

read_uid-Keeps : KeepsStage idle idle read_uid
unfolding read_uid
read_uid-Keeps =
    before idle idle _ refl
      (before idle idle _ refl (then_keep (read_words-Keeps 0 _) (λ us. value idle (uid_of us))))

read_device_id-Keeps : KeepsStage idle idle read_device_id
unfolding read_device_id
read_device_id-Keeps = before idle idle _ refl (
    before idle idle _ refl
      (before addressing idle _ refl (then_keep log_words-Keeps (λ ws. value idle (swap_all ws)))))

pub main-Keeps : KeepsStage running idle QspiId.main
unfolding QspiId.main
main-Keeps = then_keep (use_hse-Keeps running) (λ _. then_keep (setup_gpio-Keeps running) (λ _.
    then_keep (setup_systick-Keeps running) (λ _. then_keep (reset_qspi-Keeps running) (λ _.
      before running idle _ refl (
        before running idle _ refl (
          then_keep (reboot-Keeps running) (λ _. then_keep read_jedec_id-Keeps (λ a.
            then_keep read_uid-Keeps
              (λ b. then_keep read_device_id-Keeps (λ c. value idle _))))))))))
