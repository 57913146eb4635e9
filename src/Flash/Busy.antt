-- ===== src/Flash/Busy.antt =====
-- That s19_quadspi/src/bin/s19c03_read_wirte_with_hal.rs waits for the chip before it goes on.
use rust_on_stm32_notebook.Common.{
  ℕ, ◌/◌, ◌%◌, ◌==◌, ◌≡◌, refl, ap, ◌∙◌, Bool, true, false, ◌||◌, if◌then◌else◌, List, [], ◌∷◌,
  ◌++◌, arith, Bool-cases, inl, inr,
}
use rust_on_stm32_notebook.Hardware.{Outcome, done, panic, waiting}
use rust_on_stm32_notebook.Flash.{
  Command, Reply, bytes, failed, busy, Call, indirect_read, indirect_write, is_busy, delay_ms, M,
  pure, fail, chain, ◌>>=◌, fill, read_command, write_command, pause_ms, head, driver_idle,
  reboot_w25q32, is_w25q32, check_w25q32_id, wait_w25q32_not_busy, set_quad_bit, enable_quad_mode,
  set_write_enable, enable_write, read_page, erase_sector, program_page, main,
}

-- What is known of the chip: whether it may still be working.
pub data Chip : Type 0 where
  idle working : Chip

-- A sector erase, a page program and a write of the status register keep the chip busy.
abbrev pub starts_work : Command → Bool
starts_work c = c.instruction == 0x20 || (c.instruction == 0x32 || c.instruction == 0x31)

abbrev pub reads_status : Command → Bool
reads_status c = c.instruction == 0x05

-- A status without the bit BUSY says that the chip has finished.
abbrev pub chip_after : Call → Chip → Chip
chip_after (indirect_read c (bytes bs)) chip =
    if reads_status c then (if head (fill 1 bs) % 2 == 0 then idle else chip) else chip
chip_after (indirect_write c r) chip = if starts_work c then working else chip
chip_after _ chip = chip

-- A chip that may be working is only asked for its status.
abbrev allowed : Call → Chip → Bool
allowed _ idle = true
allowed (indirect_read c r) working = reads_status c
allowed (indirect_write c r) working = false
allowed (is_busy b) working = true
allowed (delay_ms n) working = true

unfoldable pub respects : Chip → List Call → Bool
respects chip [] = true
respects chip (c ∷ t) =
    let rest = respects (chip_after c chip) t in if allowed c chip then rest else false

unfoldable pub chip_at_end : Chip → List Call → Chip
chip_at_end chip [] = chip
chip_at_end chip (c ∷ t) = chip_at_end (chip_after c chip) t

respects-append :
    (chip : Chip) (s t : List Call)
    → respects chip s ≡ true
    → respects (chip_at_end chip s) t ≡ true
    → respects chip (s ++ t) ≡ true
unfolding respects chip_at_end
respects-append chip [] t h k = k
respects-append chip (c ∷ s) t h k = elim (Bool-cases (allowed c chip)) [
  | inl a ↦ rw a (respects-append (chip_after c chip) s t (rw a at h) k)
  | inr a ↦ cc (rw a at h)
]

chip_at_end-append :
    (chip : Chip) (s t : List Call) → chip_at_end chip (s ++ t) ≡ chip_at_end (chip_at_end chip s) t
unfolding chip_at_end
chip_at_end-append chip [] t = refl
chip_at_end-append chip (c ∷ s) t = chip_at_end-append (chip_after c chip) s t

-- A run that respects the chip from `c` on, and if it ends leaves it at `c'`.
record Keeps {A : Type 0} (c c' : Chip) (m : M A) : Type 0 where
  safe : (replies : List Reply) → respects c (m replies).trace ≡ true
  leaves :
      (replies : List Reply) (a : A)
      → (m replies).outcome ≡ done a
      → chip_at_end c (m replies).trace ≡ c'

pure-Keeps : {A : Type 0} (c : Chip) (a : A) → Keeps c c (pure a)
unfolding respects chip_at_end
pure-Keeps c a = record { safe = λ replies. refl; leaves = λ replies b e. refl }

fail-Keeps : {A : Type 0} (c c' : Chip) → Keeps {A = A} c c' fail
unfolding respects chip_at_end
fail-Keeps c c' = record { safe = λ replies. refl; leaves = λ replies b e. cc }

module _ {A B : Type 0} (f : A → M B) (c c' c'' : Chip) (q : (a : A) → Keeps c' c'' (f a)) where
  chain_safe :
      (o : Outcome A) (t : List Call) (rest : List Reply)
      → respects c t ≡ true
      → ((a : A) → o ≡ done a → chip_at_end c t ≡ c')
      → respects c (chain o t rest f).trace ≡ true
  chain_safe (done a) t rest h l =
      respects-append c t (f a rest).trace h (rw (l a refl) ((q a).safe rest))
  chain_safe panic t rest h l = h
  chain_safe waiting t rest h l = h

  chain_leaves :
      (o : Outcome A) (t : List Call) (rest : List Reply) (b : B)
      → ((a : A) → o ≡ done a → chip_at_end c t ≡ c')
      → (chain o t rest f).outcome ≡ done b
      → chip_at_end c (chain o t rest f).trace ≡ c''
  chain_leaves (done a) t rest b l e =
      rw (chip_at_end-append c t (f a rest).trace, l a refl) ((q a).leaves rest b e)
  chain_leaves panic t rest b l e = cc
  chain_leaves waiting t rest b l e = cc

>>=-Keeps :
    {A B : Type 0} {m : M A} {f : A → M B} {c c' c'' : Chip}
    → Keeps c c' m
    → ((a : A) → Keeps c' c'' (f a))
    → Keeps c c'' (m >>= f)
>>=-Keeps {m = m} {f = f} {c = c} {c' = c'} {c'' = c''} p q = record {
  safe = λ replies.
      chain_safe f c c' c'' q (m replies).outcome (m replies).trace (m replies).rest
        (p.safe replies) (p.leaves replies);
  leaves = λ replies b e.
      chain_leaves f c c' c'' q (m replies).outcome (m replies).trace (m replies).rest b
        (p.leaves replies) e;
}

read-Keeps : (n : ℕ) (c : Command) → Keeps idle idle (read_command n c)
unfolding respects chip_at_end
read-Keeps n c = record { safe = safe; leaves = leaves }
  where
    safe : (replies : List Reply) → respects idle (read_command n c replies).trace ≡ true
    safe [] = refl
    safe (bytes bs ∷ replies) = refl
    safe (failed ∷ replies) = refl
    safe (busy b ∷ replies) = refl

    leaves :
        (replies : List Reply) (a : List ℕ)
        → (read_command n c replies).outcome ≡ done a
        → chip_at_end idle (read_command n c replies).trace ≡ idle
    leaves [] a e = refl
    leaves (bytes bs ∷ replies) a e = ground arith
    leaves (failed ∷ replies) a e = refl
    leaves (busy b ∷ replies) a e = refl

write-Keeps : (c : Command) → Keeps idle (if starts_work c then working else idle) (write_command c)
unfolding respects chip_at_end
write-Keeps c = record { safe = safe; leaves = leaves }
  where
    safe : (replies : List Reply) → respects idle (write_command c replies).trace ≡ true
    safe [] = refl
    safe (bytes bs ∷ replies) = refl
    safe (failed ∷ replies) = refl
    safe (busy b ∷ replies) = refl

    leaves :
        (replies : List Reply) (a : Unit {0})
        → (write_command c replies).outcome ≡ done a
        → chip_at_end idle (write_command c replies).trace
          ≡ (if starts_work c then working else idle)
    leaves [] a e = cc
    leaves (bytes bs ∷ replies) a e = refl
    leaves (failed ∷ replies) a e = cc
    leaves (busy b ∷ replies) a e = cc

pause-Keeps : (c : Chip) (n : ℕ) → Keeps c c (pause_ms n)
unfolding respects chip_at_end
pause-Keeps idle n = record { safe = λ replies. refl; leaves = λ replies a e. refl }
pause-Keeps working n = record { safe = λ replies. refl; leaves = λ replies a e. refl }

driver_idle-Keeps : Keeps idle idle driver_idle
unfolding driver_idle respects chip_at_end
driver_idle-Keeps = record { safe = safe; leaves = leaves }
  where
    safe : (replies : List Reply) → respects idle (driver_idle replies).trace ≡ true
    safe [] = refl
    safe (busy true ∷ replies) = safe replies
    safe (busy false ∷ replies) = refl
    safe (bytes bs ∷ replies) = refl
    safe (failed ∷ replies) = refl

    leaves :
        (replies : List Reply) (a : Unit {0})
        → (driver_idle replies).outcome ≡ done a
        → chip_at_end idle (driver_idle replies).trace ≡ idle
    leaves [] a e = refl
    leaves (busy true ∷ replies) a e = leaves replies a e
    leaves (busy false ∷ replies) a e = refl
    leaves (bytes bs ∷ replies) a e = refl
    leaves (failed ∷ replies) a e = refl

if-false : (c c' : Chip) (b : Bool) → b ≡ false → (if b then c else c') ≡ c'
if-false c c' b e = rw e

wait-Keeps : (c : Chip) → Keeps c idle wait_w25q32_not_busy
unfolding wait_w25q32_not_busy respects chip_at_end
wait-Keeps c = record { safe = safe c; leaves = leaves c }
  where
    safe :
        (c : Chip) (replies : List Reply) → respects c (wait_w25q32_not_busy replies).trace ≡ true
    safe idle [] = refl
    safe working [] = refl
    safe idle (bytes bs ∷ replies) = elim (Bool-cases (head (fill 1 bs) % 2 == 0)) [
      | inl e ↦ rw e
      | inr e ↦ rw (e, e) (safe idle replies)
    ]
    safe working (bytes bs ∷ replies) = elim (Bool-cases (head (fill 1 bs) % 2 == 0)) [
      | inl e ↦ rw e
      | inr e ↦ rw (e, e) (safe working replies)
    ]
    safe idle (failed ∷ replies) = refl
    safe working (failed ∷ replies) = refl
    safe idle (busy b ∷ replies) = refl
    safe working (busy b ∷ replies) = refl

    leaves :
        (c : Chip) (replies : List Reply) (a : Unit {0})
        → (wait_w25q32_not_busy replies).outcome ≡ done a
        → chip_at_end c (wait_w25q32_not_busy replies).trace ≡ idle
    leaves c [] a e = cc
    leaves c (bytes bs ∷ replies) a e = elim (Bool-cases (head (fill 1 bs) % 2 == 0)) [
      | inl z ↦ rw (z, z)
      | inr z ↦ rw z (
          ap (λ x. chip_at_end x (wait_w25q32_not_busy replies).trace)
            (if-false idle c (head (fill 1 bs) % 2 == 0) z)
          ∙ leaves c replies a (rw z at e))
    ]
    leaves c (failed ∷ replies) a e = cc
    leaves c (busy b ∷ replies) a e = cc

if-Keeps :
    {A : Type 0} {m k : M A} {c c' : Chip} (b : Bool)
    → Keeps c c' m
    → Keeps c c' k
    → Keeps c c' (if b then m else k)
if-Keeps true p q = p
if-Keeps false p q = q

reboot-Keeps : Keeps idle idle reboot_w25q32
unfolding reboot_w25q32
reboot-Keeps = >>=-Keeps (write-Keeps _) (λ _. >>=-Keeps (write-Keeps _) (λ _. pause-Keeps idle 50))

check-Keeps : Keeps idle idle check_w25q32_id
unfolding check_w25q32_id
check-Keeps =
    >>=-Keeps (read-Keeps 2 _)
      (λ buf. if-Keeps (is_w25q32 buf) (pure-Keeps idle tt) (fail-Keeps idle idle))

set_quad_bit-Keeps : (b : ℕ) → Keeps idle idle (set_quad_bit b)
unfolding set_quad_bit
set_quad_bit-Keeps b = >>=-Keeps (write-Keeps _) (λ _. >>=-Keeps (wait-Keeps idle) (λ _.
    >>=-Keeps (write-Keeps _) (λ _. >>=-Keeps (wait-Keeps working) (λ _.
      >>=-Keeps (read-Keeps 1 _)
        (λ buf. if-Keeps (head buf / 2 % 2 == 1) (pure-Keeps idle tt) (fail-Keeps idle idle))))))

enable_quad_mode-Keeps : Keeps idle idle enable_quad_mode
unfolding enable_quad_mode
enable_quad_mode-Keeps =
    >>=-Keeps (read-Keeps 1 _)
      (λ buf. if-Keeps (head buf / 2 % 2 == 0) (set_quad_bit-Keeps (head buf)) (pure-Keeps idle tt))

set_write_enable-Keeps : Keeps idle idle set_write_enable
unfolding set_write_enable
set_write_enable-Keeps = >>=-Keeps (write-Keeps _) (λ _. >>=-Keeps (wait-Keeps idle) (λ _.
    >>=-Keeps (read-Keeps 1 _)
      (λ buf. if-Keeps (head buf / 2 == 1) (pure-Keeps idle tt) (fail-Keeps idle idle))))

enable_write-Keeps : Keeps idle idle enable_write
unfolding enable_write
enable_write-Keeps =
    >>=-Keeps (read-Keeps 1 _)
      (λ buf. if-Keeps (head buf / 2 == 0) set_write_enable-Keeps (pure-Keeps idle tt))

read_page-Keeps : Keeps idle idle read_page
unfolding read_page
read_page-Keeps = read-Keeps 8 _

erase_sector-Keeps : Keeps idle working erase_sector
unfolding erase_sector
erase_sector-Keeps = write-Keeps _

program_page-Keeps : Keeps idle working program_page
unfolding program_page
program_page-Keeps = write-Keeps _

main-Keeps : Keeps idle idle main
unfolding main
main-Keeps = >>=-Keeps driver_idle-Keeps (λ _. >>=-Keeps reboot-Keeps (λ _.
    >>=-Keeps check-Keeps (λ _. >>=-Keeps enable_quad_mode-Keeps (λ _.
      >>=-Keeps read_page-Keeps (λ _. >>=-Keeps enable_write-Keeps (λ _.
        >>=-Keeps erase_sector-Keeps (λ _. >>=-Keeps (wait-Keeps working) (λ _.
          >>=-Keeps read_page-Keeps (λ _. >>=-Keeps enable_write-Keeps (λ _.
            >>=-Keeps program_page-Keeps (λ _.
              >>=-Keeps (wait-Keeps working)
                (λ _. >>=-Keeps read_page-Keeps (λ _. pure-Keeps idle _)))))))))))))

-- Whatever the chip and the driver answer, `main` never interrupts the chip's own work: from a
-- sector erase, a page program or a write of a status register on, up to a status whose lowest bit
-- is clear, every access it makes reads the status or only waits.
pub main_never_interrupts : (replies : List Reply) → respects idle (main replies).trace ≡ true
main_never_interrupts replies = main-Keeps.safe replies
