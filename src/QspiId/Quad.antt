-- ===== src/QspiId/Quad.antt =====
-- s19_quadspi/src/bin/s19c02_quad_mode_read_id.rs: the same identification over one, two and four
-- wires, with the quad mode enabled in between.
use rust_on_stm32_notebook.Common.{ℕ, zero, suc, ◌/◌, ◌%◌, ◌==◌, if◌then◌else◌, [], ◌∷◌, length}
use rust_on_stm32_notebook.Hardware.{
  Value, bits, M, waiting, pure, fail, write, read, poll, is_set, ◌>>=◌, ◌>>◌,
}
use rust_on_stm32_notebook.QspiId.{swap_bytes16}
use rust_on_stm32_notebook.QspiId.Setup
use rust_on_stm32_notebook.QspiId.Setup.{
  Field, use_hse, setup_gpio, setup_systick, reset_qspi, wait_not_busy, pause,
}

unfoldable pub clear_tcf : M Field (Unit {0})
clear_tcf = write ((Setup.ctcf, Value.set_bit) ∷ [])

-- `while !tcf {}`, its clearing, and the word
unfoldable pub read_result : M Field ℕ
read_result = do poll Setup.tcf is_set; clear_tcf; read Setup.dr

unfoldable pub reboot_w25q32 : M Field (Unit {0})
reboot_w25q32 = do
  wait_not_busy
  write ((Setup.imode, bits 1) ∷ (Setup.instruction, bits 0x66) ∷ [])
  wait_not_busy
  write ((Setup.imode, bits 1) ∷ (Setup.instruction, bits 0x99) ∷ [])
  wait_not_busy
  pause

-- a round of `wait_w25q32_not_busy`: the status
unfoldable pub read_status : M Field ℕ
read_status = do
  wait_not_busy
  clear_tcf
  write (
      (Setup.fmode, bits 1)
      ∷ (Setup.imode, bits 1)
      ∷ (Setup.dmode, bits 1)
      ∷ (Setup.instruction, bits 0x05)
      ∷ [])
  read_result

unfoldable pub wait_rounds : ℕ → M Field (Unit {0})
wait_rounds zero reads = record { outcome = waiting; trace = []; rest = reads }
wait_rounds (suc rounds) reads =
    (read_status >>= λ status. if status % 2 == 0 then pure tt else wait_rounds rounds) reads

-- One round more than there are answers: each round reads at least once.
unfoldable pub wait_loop : M Field (Unit {0})
wait_loop reads = wait_rounds (suc (length reads)) reads

unfoldable pub wait_w25q32_not_busy : M Field (Unit {0})
wait_w25q32_not_busy = do write ((Setup.dl, bits 0) ∷ []); wait_loop

-- 0x90 over one wire
unfoldable pub read_id_single : M Field ℕ
read_id_single = do
  wait_not_busy
  clear_tcf
  write ((Setup.dl, bits 1) ∷ [])
  write (
      (Setup.fmode, bits 1)
      ∷ (Setup.imode, bits 1)
      ∷ (Setup.admode, bits 1)
      ∷ (Setup.adsize, bits 2)
      ∷ (Setup.dmode, bits 1)
      ∷ (Setup.instruction, bits 0x90)
      ∷ [])
  write ((Setup.address, bits 0) ∷ [])
  word ← read_result
  wait_not_busy
  pure (swap_bytes16 (word % 65536))

-- 0x92 over two wires
unfoldable pub read_id_dual : M Field ℕ
read_id_dual = do
  wait_not_busy
  clear_tcf
  write ((Setup.dl, bits 1) ∷ [])
  write ((Setup.alternate, bits 0xFF) ∷ [])
  write (
      (Setup.fmode, bits 1)
      ∷ (Setup.imode, bits 1)
      ∷ (Setup.admode, bits 2)
      ∷ (Setup.adsize, bits 2)
      ∷ (Setup.abmode, bits 2)
      ∷ (Setup.absize, bits 0)
      ∷ (Setup.dmode, bits 2)
      ∷ (Setup.instruction, bits 0x92)
      ∷ [])
  write ((Setup.address, bits 0) ∷ [])
  word ← read_result
  wait_not_busy
  pure (swap_bytes16 (word % 65536))

-- 0x94 over four wires
unfoldable pub read_id_quad : M Field ℕ
read_id_quad = do
  wait_not_busy
  clear_tcf
  write ((Setup.dl, bits 1) ∷ [])
  write ((Setup.alternate, bits 0xFF) ∷ [])
  write (
      (Setup.fmode, bits 1)
      ∷ (Setup.imode, bits 1)
      ∷ (Setup.admode, bits 3)
      ∷ (Setup.adsize, bits 2)
      ∷ (Setup.abmode, bits 3)
      ∷ (Setup.absize, bits 0)
      ∷ (Setup.dmode, bits 3)
      ∷ (Setup.dcyc, bits 4)
      ∷ (Setup.instruction, bits 0x94)
      ∷ [])
  write ((Setup.address, bits 0) ∷ [])
  word ← read_result
  wait_not_busy
  pure (swap_bytes16 (word % 65536))

-- the second status register
unfoldable pub read_sr2 : M Field ℕ
read_sr2 = do
  wait_not_busy
  clear_tcf
  write ((Setup.dl, bits 0) ∷ [])
  write (
      (Setup.fmode, bits 1)
      ∷ (Setup.imode, bits 1)
      ∷ (Setup.dmode, bits 1)
      ∷ (Setup.instruction, bits 0x35)
      ∷ [])
  sr2_value ← read_result
  wait_not_busy
  pure sr2_value

-- the block of `if sr2_value >> 1 & 1 == 0`
unfoldable pub enable_quad_mode : M Field (Unit {0})
enable_quad_mode = do
  wait_not_busy
  write ((Setup.imode, bits 1) ∷ (Setup.instruction, bits 0x50) ∷ [])
  wait_not_busy
  wait_w25q32_not_busy
  wait_not_busy
  write ((Setup.dl, bits 0) ∷ [])
  write ((Setup.imode, bits 1) ∷ (Setup.dmode, bits 1) ∷ (Setup.instruction, bits 0x31) ∷ [])
  write ((Setup.dr, bits 2) ∷ [])
  wait_not_busy
  wait_w25q32_not_busy
  sr2_value ← read_sr2
  if sr2_value / 2 % 2 == 1 then pure tt else fail

-- The three identifications that are logged.
pub record Ids : Type 0 where
  pub single : ℕ
  pub dual : ℕ
  pub quad : ℕ

unfoldable pub main : M Field Ids
main = do
  use_hse
  setup_gpio
  setup_systick
  reset_qspi
  write ((Setup.prescaler, bits 24) ∷ [])
  write ((Setup.sshift, Value.set_bit) ∷ [])
  write ((Setup.fsize, bits 21) ∷ (Setup.ckmode, Value.set_bit) ∷ [])
  write ((Setup.qspi_en, Value.set_bit) ∷ [])
  reboot_w25q32
  single ← read_id_single
  dual ← read_id_dual
  sr2_value ← read_sr2
  if sr2_value / 2 % 2 == 0 then enable_quad_mode else pure tt
  quad ← read_id_quad
  pure (record { single = single; dual = dual; quad = quad })
