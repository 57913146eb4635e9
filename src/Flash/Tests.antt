-- ===== src/Flash/Tests.antt =====
-- Runs of s19_quadspi/src/bin/s19c03_read_wirte_with_hal.rs on concrete answers.
use rust_on_stm32_notebook.Common.{ℕ, ◌≡◌, refl, ap, arith, true, false, List, [], ◌∷◌, ◌≢◌}
use rust_on_stm32_notebook.Hardware.{done, panic}
use rust_on_stm32_notebook.Flash.{
  Reply, bytes, busy, fill, head, main, driver_idle, reboot_w25q32, is_w25q32, check_w25q32_id,
  wait_w25q32_not_busy, set_quad_bit, enable_quad_mode, set_write_enable, enable_write, read_page,
  erase_sector, program_page,
}
use rust_on_stm32_notebook.Flash.Busy.{idle, respects, main_never_interrupts}
use rust_on_stm32_notebook.Flash.Identity.{writes, identity, first_replies, foreign_chip_untouched}

abbrev ok : Reply
ok = bytes []

abbrev status : ℕ → Reply
status b = bytes (b ∷ [])

-- A chip that gets its quad bit set, and is busy twice while it erases and once while it programs.
abbrev good_chip : List Reply
good_chip =
    busy true
    ∷ busy false
    ∷ ok
    ∷ ok
    ∷ bytes identity
    ∷ status 0
    ∷ ok
    ∷ status 0
    ∷ ok
    ∷ status 1
    ∷ status 0
    ∷ status 2
    ∷ bytes (7 ∷ [])
    ∷ status 0
    ∷ ok
    ∷ status 0
    ∷ status 2
    ∷ ok
    ∷ status 3
    ∷ status 3
    ∷ status 0
    ∷ bytes (255 ∷ 255 ∷ [])
    ∷ status 0
    ∷ ok
    ∷ status 0
    ∷ status 2
    ∷ ok
    ∷ status 3
    ∷ status 0
    ∷ bytes (1 ∷ 2 ∷ [])
    ∷ []

good_chip-writes :
    writes (main good_chip).trace ≡ 0x66 ∷ 0x99 ∷ 0x50 ∷ 0x31 ∷ 0x06 ∷ 0x20 ∷ 0x06 ∷ 0x32 ∷ []
unfolding main writes driver_idle reboot_w25q32 is_w25q32 check_w25q32_id wait_w25q32_not_busy
    set_quad_bit enable_quad_mode set_write_enable enable_write read_page erase_sector program_page
good_chip-writes = refl

good_chip-main :
    (main good_chip).outcome
    ≡ done (record {
      before = 7 ∷ 0 ∷ 0 ∷ 0 ∷ 0 ∷ 0 ∷ 0 ∷ 0 ∷ [];
      erased = 255 ∷ 255 ∷ 0 ∷ 0 ∷ 0 ∷ 0 ∷ 0 ∷ 0 ∷ [];
      written = 1 ∷ 2 ∷ 0 ∷ 0 ∷ 0 ∷ 0 ∷ 0 ∷ 0 ∷ [];
    })
unfolding main driver_idle reboot_w25q32 is_w25q32 check_w25q32_id wait_w25q32_not_busy set_quad_bit
    enable_quad_mode set_write_enable enable_write read_page erase_sector program_page
good_chip-main = refl

main_never_interrupts_example : respects idle (main good_chip).trace ≡ true
main_never_interrupts_example = main_never_interrupts good_chip

other_identity : fill 2 (0xC8 ∷ 0x15 ∷ []) ≢ identity
other_identity e = omega (arith, h)
  where
    h : ◌≡◌ {A = ℕ} 0xC8 0xEF
    h = ap head e

foreign_chip_untouched_example :
    ((main (first_replies 2 [] [] (0xC8 ∷ 0x15 ∷ []) [])).outcome ≡ panic)
    × (writes (main (first_replies 2 [] [] (0xC8 ∷ 0x15 ∷ []) [])).trace ≡ 0x66 ∷ 0x99 ∷ [])
foreign_chip_untouched_example = foreign_chip_untouched 2 [] [] (0xC8 ∷ 0x15 ∷ []) [] other_identity
