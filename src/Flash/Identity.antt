-- ===== src/Flash/Identity.antt =====
-- That s19_quadspi/src/bin/s19c03_read_wirte_with_hal.rs writes to no chip but a W25Q32.
use rust_on_stm32_notebook.Common.{
  ℕ, zero, suc, ◌+◌, ◌*◌, ◌%◌, ◌≡◌, refl, ◌∙◌, true, false, List, [], ◌∷◌, ◌++◌, arith, ==→eq,
  Bool-cases, inl, inr, ◌≢◌, replicate,
}
use rust_on_stm32_notebook.Hardware.{Outcome, done, panic, waiting}
use rust_on_stm32_notebook.Flash.{
  Reply, bytes, busy, Call, indirect_write, is_busy, M, chain, fill, driver_idle, reboot_w25q32,
  is_w25q32, check_w25q32_id, main,
}

-- The instructions that a run writes.
unfoldable pub writes : List Call → List ℕ
writes [] = []
writes (indirect_write c r ∷ t) = c.instruction ∷ writes t
writes (c ∷ t) = writes t

abbrev pub identity : List ℕ
identity = 0xEF ∷ 0x15 ∷ []

is_w25q32-pair :
    (b c : ℕ)
    → is_w25q32 ((b % 256) ∷ (c % 256) ∷ []) ≡ true
    → (b % 256) ∷ (c % 256) ∷ [] ≡ identity
unfolding is_w25q32
is_w25q32-pair b c e = rw (high, low)
  where
    sum : b % 256 * 256 + c % 256 ≡ 61205
    sum = ==→eq _ _ e

    high : b % 256 ≡ 0xEF
    high = omega (arith, sum)

    low : c % 256 ≡ 0x15
    low = omega (arith, sum)

is_w25q32-fill : (bs : List ℕ) → is_w25q32 (fill 2 bs) ≡ true → fill 2 bs ≡ identity
unfolding is_w25q32
is_w25q32-fill [] e = cc
is_w25q32-fill (b ∷ []) e = is_w25q32-pair b 0 e
is_w25q32-fill (b ∷ c ∷ bs) e = is_w25q32-pair b c e

foreign-is_w25q32 : (bs : List ℕ) → fill 2 bs ≢ identity → is_w25q32 (fill 2 bs) ≡ false
foreign-is_w25q32 bs h = elim (Bool-cases (is_w25q32 (fill 2 bs))) [
  | inl e ↦ absurd (h (is_w25q32-fill bs e))
  | inr e ↦ e
]

module _ {A B : Type 0} (t : List Call) (rest : List Reply) (f : A → M B) where
  outcome-is_busy :
      (o : Outcome A) → (chain o (is_busy true ∷ t) rest f).outcome ≡ (chain o t rest f).outcome
  outcome-is_busy (done a) = refl
  outcome-is_busy panic = refl
  outcome-is_busy waiting = refl

  writes-is_busy :
      (o : Outcome A)
      → writes (chain o (is_busy true ∷ t) rest f).trace ≡ writes (chain o t rest f).trace
  unfolding writes
  writes-is_busy (done a) = refl
  writes-is_busy panic = refl
  writes-is_busy waiting = refl

-- `main` with its driver busy for n questions, then two answers to the reset of the chip and the
-- answer bs to the question for its identity
abbrev pub first_replies : ℕ → List ℕ → List ℕ → List ℕ → List Reply → List Reply
first_replies n a b bs replies =
    replicate n (busy true) ++ busy false ∷ bytes a ∷ bytes b ∷ bytes bs ∷ replies

-- Whatever else it would answer, a chip that does not answer the question for its identity with the
-- two bytes 0xEF and 0x15 is neither erased nor programmed, and its status register is not written:
-- after any number of questions whether the driver is busy, `main` panics, and it has written only
-- the two instructions of the reset.
pub foreign_chip_untouched :
    (n : ℕ) (a b bs : List ℕ) (replies : List Reply)
    → fill 2 bs ≢ identity
    → ((main (first_replies n a b bs replies)).outcome ≡ panic)
      × (writes (main (first_replies n a b bs replies)).trace ≡ 0x66 ∷ 0x99 ∷ [])
unfolding main driver_idle reboot_w25q32 check_w25q32_id writes
foreign_chip_untouched zero a b bs replies h = let e = foreign-is_w25q32 bs h in (rw e, rw e)
foreign_chip_untouched (suc n) a b bs replies h =
    let r = driver_idle (first_replies n a b bs replies) in
    let (p, q) = foreign_chip_untouched n a b bs replies h in
    (outcome-is_busy r.trace r.rest _ r.outcome ∙ p, writes-is_busy r.trace r.rest _ r.outcome ∙ q)
