-- ===== src/I2c.antt =====
-- s04_i2c/src/bin/s04c01_i2c1_to_i2c2.rs: the master I2C1 sends nine bytes to the slave I2C3, both
-- driven by interrupts. The statics of each side are a record that its handlers take and return. A
-- status register is read once at the head of a handler, and its flags are an argument; a later read
-- that only clears flags is an access whose value is dropped. Log lines are left out, apart from the
-- one of the slave that shows the data.
pub mod Setup
pub mod Sending
pub mod Receiving
pub mod Session
mod Tests
use rust_on_stm32_notebook.Common.{
  ℕ, ◌+◌, ◌*◌, ◌/◌, ◌%◌, ◌-◌, ◌^◌, ◌==◌, Bool, true, false, not, ◌||◌, if◌then◌else◌, List, [], ◌∷◌,
  Option, none, some, length, take, set, replicate, get_elem?, leb, ltb,
}
use rust_on_stm32_notebook.Hardware.{
  Value, bits, M, pure, fail, write, read, discard, when_true, unwrap, ◌>>=◌, ◌>>◌,
}

-- The fields that the program touches, by the peripheral's number where there are two.
pub data Field : Type 0 where
  sr1 sr2 dr start stop freq itevten itbufen iterren pe i2cen : ℕ → Field
  ccr trise oar1_addmode oar1_add ack cr1_all : Field
  gpioaen gpioben gpiocen : Field
  afrl6 afrl7 ot6 ot7 pupdr6 pupdr7 ospeedr6 ospeedr7 moder6 moder7 : Field
  afrh_a8 ot_a8 pupdr_a8 moder_a8 afrh_c9 ot_c9 pupdr_c9 moder_c9 : Field
  hseon hserdy pllsrc pllm plln pllp pwren vos dcrst icrst latency dcen icen prften : Field
  pllon vosrdy pllrdy ppre1 sw sws_is_pll : Field
  nvic_i2c1_evt nvic_i2c1_err nvic_i2c3_ev nvic_i2c3_er : Field
  priority_i2c1_evt priority_i2c1_err priority_i2c3_ev priority_i2c3_er : Field

abbrev pub i2c_slave_address : ℕ
i2c_slave_address = 0b1010101

abbrev pub out_list : List ℕ
out_list = 1 ∷ 2 ∷ 3 ∷ 4 ∷ 5 ∷ 6 ∷ 7 ∷ 8 ∷ 9 ∷ []

-- `counter.set(cnt + 1)` on usize
unfoldable pub increment : {A : Type 0} → ℕ → (ℕ → A) → M Field A
increment cnt f = if ltb (cnt + 1) (2 ^ 32) then pure (f (cnt + 1)) else fail

-- G_SENDING_INDEX and G_SENDING_INT_CNT
pub record Sender : Type 0 where
  pub sending_index : ℕ
  pub sending_int_cnt : ℕ

-- The flags of SR1 that the master's handler looks at, and the bit STOP of CR1 when it reads that.
pub record MasterStatus : Type 0 where
  pub sb : Bool
  pub addr : Bool
  pub stop_pending : Bool
  pub tx_e : Bool

-- the branch `master_sr1.tx_e().is_empty()`: the index after it
unfoldable pub send_next : ℕ → M Field ℕ
send_next sending_idx = do
  cur_byte ← unwrap (get_elem? out_list sending_idx)
  write ((dr 1, bits cur_byte) ∷ [])
  when_true (sending_idx == length out_list - 1) (write ((stop 1, Value.stop_condition) ∷ []))
  pure (sending_idx + 1)

-- `if master.cr1.read().stop().bit_is_set() { .. } else if master_sr1.tx_e().is_empty() { .. }`
unfoldable pub stop_or_send : MasterStatus → ℕ → M Field ℕ
unfolding send_next
stop_or_send s sending_idx =
    if s.stop_pending
    then pure sending_idx
    else (if s.tx_e then send_next sending_idx else pure sending_idx)

-- `handled` at the end of the handler
abbrev pub master_handled : MasterStatus → Bool
master_handled s = s.sb || (s.addr || (s.stop_pending || s.tx_e))

unfoldable pub i2c1_evt : MasterStatus → Sender → M Field Sender
i2c1_evt s m = do
  when_true s.sb
      (do discard (sr1 1); write ((dr 1, bits (i2c_slave_address * 2 % 256 / 2 * 2)) ∷ []))
  when_true s.addr (do discard (sr1 1); discard (sr2 1))
  idx ← stop_or_send s m.sending_index
  when_true (not (master_handled s)) (discard (sr2 1))
  increment m.sending_int_cnt (λ cnt. record { sending_index = idx; sending_int_cnt = cnt })

-- Both error handlers only log the two status registers.
unfoldable pub i2c1_err : M Field (Unit {0})
i2c1_err = do discard (sr1 1); discard (sr2 1)

-- G_RECEIVE_BUF, G_RECEIVING_INDEX and G_RECEIVING_INT_CNT
pub record Receiver : Type 0 where
  pub receive_buf : List ℕ
  pub receiving_index : ℕ
  pub receiving_int_cnt : ℕ

unfoldable pub slave_start : Receiver
slave_start = record { receive_buf = replicate 16 0; receiving_index = 0; receiving_int_cnt = 1 }

pub record SlaveStatus : Type 0 where
  pub addr : Bool
  pub rx_ne : Bool
  pub stopf : Bool

-- the branch `slave_sr1.rx_ne().is_not_empty()`
unfoldable pub receive : Receiver → M Field Receiver
receive t = do
  cur_char ← read (dr 3)
  if ltb t.receiving_index (length t.receive_buf)
      then pure (record t {
        receive_buf = set t.receive_buf t.receiving_index (cur_char % 256);
        receiving_index = t.receiving_index + 1;
      })
      else fail

-- the branch `slave_sr1.stopf().is_stop()`: the data that it logs
unfoldable pub show_data : Receiver → M Field (List ℕ)
show_data t = do
  discard (sr1 3)
  write ((cr1_all, Value.unchanged) ∷ [])
  if leb t.receiving_index (length t.receive_buf)
      then pure (take t.receiving_index t.receive_buf)
      else fail

-- What the handler leaves, and the data that it logs.
pub record Shown : Type 0 where
  pub slave : Receiver
  pub printed : Option (List ℕ)

unfoldable pub show_if : Bool → Receiver → M Field (Option (List ℕ))
unfolding show_data
show_if stopf t = if stopf then show_data t >>= (λ bytes. pure (some bytes)) else pure none

unfoldable pub i2c3_ev : SlaveStatus → Receiver → M Field Shown
i2c3_ev s t = do
  when_true s.addr (do discard (sr1 3); discard (sr2 3))
  t' ← if s.rx_ne then receive t else pure t
  shown ← show_if s.stopf t'
  when_true (not (s.addr || (s.rx_ne || s.stopf))) (discard (sr2 3))
  increment t.receiving_int_cnt
      (λ cnt. record { slave = record t' { receiving_int_cnt = cnt }; printed = shown })

unfoldable pub i2c3_er : M Field (Unit {0})
i2c3_er = do discard (sr1 3); discard (sr2 3)
