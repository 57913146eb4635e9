-- ===== src/QspiId/Commands.antt =====
-- When the programs of s19_quadspi/src/bin that read identifications give QUADSPI a command.
use rust_on_stm32_notebook.Common.{ℕ, zero, suc, ◌/◌, ◌%◌, ◌==◌, ◌≡◌, refl, true, List, length}
use rust_on_stm32_notebook.Hardware.{pure, ◌>>=◌}
use rust_on_stm32_notebook.Hardware.Monitor.{
  respects, state_after, read-Keeps, fail-Keeps, if-Keeps,
}
use rust_on_stm32_notebook.QspiId
use rust_on_stm32_notebook.QspiId.{
  reboot, read_jedec_id, read_uid, read_device_id, log_words, read_words, uid_of, swap_all,
  cons_word,
}
use rust_on_stm32_notebook.QspiId.Setup
use rust_on_stm32_notebook.QspiId.Setup.{
  Field, use_hse, setup_gpio, setup_systick, reset_qspi, wait_not_busy, pause,
}
use rust_on_stm32_notebook.QspiId.Stages.{
  Stage, idle, running, addressing, sending, stage_after, command_allowed, KeepsStage, before,
  then_keep, value, polled, waited,
}
use rust_on_stm32_notebook.QspiId.Single.{
  use_hse-Keeps, setup_gpio-Keeps, setup_systick-Keeps, reset_qspi-Keeps, pause-Keeps, main-Keeps,
}
use rust_on_stm32_notebook.QspiId.Quad
use rust_on_stm32_notebook.QspiId.Quad.{
  read_result, clear_tcf, read_status, wait_rounds, wait_loop, wait_w25q32_not_busy, read_id_single,
  read_id_dual, read_id_quad, read_sr2, enable_quad_mode,
}

read_result-Keeps : KeepsStage running running read_result
unfolding read_result clear_tcf
read_result-Keeps = then_keep (polled Setup.tcf running (λ v. refl) refl (λ v. refl)) (λ _.
    before running running _ refl
      (read-Keeps stage_after command_allowed Setup.dr running running (λ v. refl) (λ v. refl)))

read_status-Keeps : (s : Stage) → KeepsStage s running read_status
unfolding read_status clear_tcf
read_status-Keeps s =
    waited s running (before idle running _ refl (before idle running _ refl read_result-Keeps))

wait_rounds-Keeps : (s : Stage) (rounds : ℕ) → KeepsStage s running (wait_rounds rounds)
unfolding wait_rounds respects state_after
wait_rounds-Keeps s zero = record { safe = λ reads. refl; leaves = λ reads a e. cc }
wait_rounds-Keeps s (suc rounds) =
    let m = then_keep (read_status-Keeps s) (λ status.
      if-Keeps stage_after command_allowed (status % 2 == 0) (value running tt)
        (wait_rounds-Keeps running rounds)) in
    record { safe = m.safe; leaves = m.leaves }

wait_loop-Keeps : (s : Stage) → KeepsStage s running wait_loop
unfolding wait_loop
wait_loop-Keeps s = record {
  safe = λ reads. (wait_rounds-Keeps s (suc (length reads))).safe reads;
  leaves = λ reads. (wait_rounds-Keeps s (suc (length reads))).leaves reads;
}

wait_w25q32_not_busy-Keeps : KeepsStage idle running wait_w25q32_not_busy
unfolding wait_w25q32_not_busy
wait_w25q32_not_busy-Keeps = before idle running _ refl (wait_loop-Keeps idle)

-- the end of each exchange: the word, and the wait
taken :
    {A : Type 0} (f : ℕ → A)
    → KeepsStage running idle (read_result >>= λ word. wait_not_busy >>= λ _. pure (f word))
taken f = then_keep read_result-Keeps (λ word. waited running idle (value idle (f word)))

read_id_single-Keeps : (s : Stage) → KeepsStage s idle read_id_single
unfolding read_id_single clear_tcf
read_id_single-Keeps s = waited s idle (
    before idle idle _ refl
      (before idle idle _ refl (before idle idle _ refl (before addressing idle _ refl (taken _)))))

read_id_dual-Keeps : (s : Stage) → KeepsStage s idle read_id_dual
unfolding read_id_dual clear_tcf
read_id_dual-Keeps s = waited s idle (
    before idle idle _ refl (
      before idle idle _ refl (
        before idle idle _ refl
          (before idle idle _ refl (before addressing idle _ refl (taken _))))))

read_id_quad-Keeps : (s : Stage) → KeepsStage s idle read_id_quad
unfolding read_id_quad clear_tcf
read_id_quad-Keeps s = waited s idle (
    before idle idle _ refl (
      before idle idle _ refl (
        before idle idle _ refl
          (before idle idle _ refl (before addressing idle _ refl (taken _))))))

read_sr2-Keeps : (s : Stage) → KeepsStage s idle read_sr2
unfolding read_sr2 clear_tcf
read_sr2-Keeps s =
    waited s idle
      (before idle idle _ refl (before idle idle _ refl (before idle idle _ refl (taken _))))

enable_quad_mode-Keeps : (s : Stage) → KeepsStage s idle enable_quad_mode
unfolding enable_quad_mode
enable_quad_mode-Keeps s = waited s idle (
    before idle idle _ refl (
      waited running idle (
        then_keep wait_w25q32_not_busy-Keeps (λ _. waited running idle (
          before idle idle _ refl (
            before idle idle _ refl (
              before sending idle _ refl (
                waited running idle (
                  then_keep wait_w25q32_not_busy-Keeps (λ _.
                    then_keep (read_sr2-Keeps running) (λ sr2_value.
                      if-Keeps stage_after command_allowed (sr2_value / 2 % 2 == 1) (value idle tt)
                        (fail-Keeps stage_after command_allowed idle idle))))))))))))

reboot_w25q32-Keeps : (s : Stage) → KeepsStage s idle Quad.reboot_w25q32
unfolding Quad.reboot_w25q32
reboot_w25q32-Keeps s = waited s idle (
    before idle idle _ refl
      (waited running idle (before idle idle _ refl (waited running idle (pause-Keeps idle)))))

quad_main-Keeps : KeepsStage running idle Quad.main
unfolding Quad.main
quad_main-Keeps = then_keep (use_hse-Keeps running) (λ _. then_keep (setup_gpio-Keeps running) (λ _.
    then_keep (setup_systick-Keeps running) (λ _. then_keep (reset_qspi-Keeps running) (λ _.
      before running idle _ refl (
        before running idle _ refl (
          before running idle _ refl (
            before running idle _ refl (
              then_keep (reboot_w25q32-Keeps running) (λ _.
                then_keep (read_id_single-Keeps idle) (λ a.
                  then_keep (read_id_dual-Keeps idle) (λ b. then_keep (read_sr2-Keeps idle) (λ c.
                    then_keep
                      (if-Keeps stage_after command_allowed (c / 2 % 2 == 0)
                        (enable_quad_mode-Keeps idle) (value idle tt))
                      (λ _. then_keep (read_id_quad-Keeps idle) (λ d. value idle _))))))))))))))

-- Both programs, whatever the hardware answers, also where a wait never ends: each length, alternate byte
-- and command is written only when BUSY was last read as clear and no command was started since, an
-- address only to a command that waits for one, and data only to a command that sends it.
pub commands_when_idle :
    (reads : List ℕ)
    → (respects stage_after command_allowed running (QspiId.main reads).trace ≡ true)
      × (respects stage_after command_allowed running (Quad.main reads).trace ≡ true)
commands_when_idle reads = (main-Keeps.safe reads, quad_main-Keeps.safe reads)
