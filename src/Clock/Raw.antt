-- ===== src/Clock/Raw.antt =====
-- s01_rcc/src/bin/s01c01_basic_0addr.rs: the system clock from HSE, by volatile reads and writes of
-- whole registers. A register is its address.
use rust_on_stm32_notebook.Common.{ℕ, ◌+◌, ◌-◌, ◌/◌, ◌%◌, ◌^◌, ◌==◌, Bool, if◌then◌else◌, [], ◌∷◌}
use rust_on_stm32_notebook.Hardware.{bits, M, pure, write, read, poll, poll_count, ◌>>=◌, ◌>>◌}

abbrev pub rcc_cr : ℕ
rcc_cr = 0x40023800 + 0x00

abbrev pub rcc_cfgr : ℕ
rcc_cfgr = 0x40023800 + 0x08

abbrev pub rcc_apb2enr : ℕ
rcc_apb2enr = 0x40023800 + 0x44

abbrev pub adc1_cr1 : ℕ
adc1_cr1 = 0x40012000 + 0x04

-- `v | 1 << k`
abbrev pub with_bit : ℕ → ℕ → ℕ
with_bit k v = if v / 2 ^ k % 2 == 1 then v else v + 2 ^ k

-- `register.write_volatile(register.read_volatile() | 1 << k)`
unfoldable pub set_bit_of : ℕ → ℕ → M ℕ (Unit {0})
set_bit_of register k = do v ← read register; write ((register, bits (with_bit k v)) ∷ [])

-- `u32::pow(2, RCC_CFGR__SWS__LEN + 1) - 1`, and the test with it
abbrev pub sws_mask : ℕ
sws_mask = 2 ^ (2 + 1) - 1

abbrev pub says_hse : ℕ → Bool
says_hse cfgr = cfgr / 4 % (sws_mask + 1) == 1

-- What the program logs.
pub record Logged : Type 0 where
  pub by_hse : Bool
  pub wait_count : ℕ

unfoldable pub main : M ℕ Logged
main = do
  set_bit_of rcc_cr 16
  wait_count ← poll_count rcc_cr (λ v. v / 2 ^ 17 % 2 == 1) 1
  set_bit_of rcc_cfgr 0
  poll rcc_cfgr (λ v. v / 4 % 2 == 1)
  set_bit_of rcc_apb2enr 8
  set_bit_of adc1_cr1 8
  cfgr ← read rcc_cfgr
  pure (record { by_hse = says_hse cfgr; wait_count = wait_count })
