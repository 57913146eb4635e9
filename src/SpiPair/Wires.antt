-- ===== src/SpiPair/Wires.antt =====
-- What is known of the wires and the master of s03_spi/src/bin/s03c02_spi1_to_spi2.rs, and the accesses that
-- are allowed with it.
use rust_on_stm32_notebook.Common.{ℕ, zero, suc, ◌≡◌, Bool, true, false, not, ◌&&◌, List, ◌∷◌}
use rust_on_stm32_notebook.Hardware.{
  Value, low, Effect, modify, sample, M, pure, fail, write, read, poll, ◌>>=◌,
}
use rust_on_stm32_notebook.Hardware.Monitor.{poll-Keeps}
use rust_on_stm32_notebook.Hardware.Ensures.{
  Ensures, pure-Ensures, fail-Ensures, part_then-Ensures, write_then-Ensures, read_then-Ensures,
}
use rust_on_stm32_notebook.SpiPair
use rust_on_stm32_notebook.SpiPair.{
  Field, Shared, at_start, main, send_word, pull_and_send, send_if_empty, release_master,
  finish_master, serve_master, spi1, Received, release_slave, word_of, receive_word, serve_slave,
  spi2, Interrupt, spi1_comes, spi2_comes, After, session,
}

-- What is known of the wires and of the master: the chip select is low, the word was sent, the driver
-- was released.
pub record Wire : Type 0 where
  pub cs_low : Bool
  pub word_sent : Bool
  pub released : Bool

abbrev pub at_reset : Wire
at_reset = record { cs_low = false; word_sent = false; released = false }

abbrev pub wire_after : Effect Field → Wire → Wire
wire_after (sample SpiPair.cs_is_high zero) w = record w { cs_low = true }
wire_after (sample SpiPair.cs_is_high (suc v)) w = record w { cs_low = false }
wire_after (modify ((SpiPair.cs_pin, low) ∷ fs)) w = record w { cs_low = true }
wire_after (modify ((SpiPair.master_send, v) ∷ fs)) w = record w { word_sent = true }
wire_after (modify ((SpiPair.master_release, v) ∷ fs)) w = record w { released = true }
wire_after _ w = w

-- A word is sent only with the chip select low, and only once; the driver is asked only while it is there, and
-- disabled and released only after the word was sent.
abbrev pub wire_allowed : Effect Field → Wire → Bool
wire_allowed (modify ((SpiPair.master_send, v) ∷ fs)) w = w.cs_low && not w.word_sent
wire_allowed (sample SpiPair.master_busy v) w = not w.released
wire_allowed (sample SpiPair.master_tx_empty v) w = not w.released
wire_allowed (modify ((SpiPair.master_enable, v) ∷ fs)) w = w.word_sent && not w.released
wire_allowed (modify ((SpiPair.master_release, v) ∷ fs)) w = w.word_sent && not w.released
wire_allowed _ w = true

-- The statics and the wires between two interrupts, and (`sending`) before the end of the handler.
pub data Agree : Shared → Wire → Type 0 where
  ready :
      {cs slave down : Bool}
      → Agree
          (record { master = true; master_cs = cs; slave = slave; sent = false })
          (record { cs_low = down; word_sent = false; released = false })
  gone :
      {cs slave down : Bool}
      → Agree
          (record { master = false; master_cs = cs; slave = slave; sent = true })
          (record { cs_low = down; word_sent = true; released = true })

pub data Middle : Shared → Wire → Type 0 where
  unsent :
      {cs slave down : Bool}
      → Middle
          (record { master = true; master_cs = cs; slave = slave; sent = false })
          (record { cs_low = down; word_sent = false; released = false })
  sending :
      {cs slave down : Bool}
      → Middle
          (record { master = true; master_cs = cs; slave = slave; sent = true })
          (record { cs_low = down; word_sent = true; released = false })

abbrev pub EnsuresWire : {A : Type 0} → Wire → (A → Wire → Type 0) → M Field A → Type 0
EnsuresWire = Ensures wire_after wire_allowed

pub done_with :
    {A : Type 0} {post : A → Wire → Type 0} (w : Wire) (a : A)
    → post a w
    → EnsuresWire w post (pure a)
done_with = pure-Ensures wire_after wire_allowed

pub panics : {A : Type 0} {post : A → Wire → Type 0} (w : Wire) → EnsuresWire w post fail
panics = fail-Ensures wire_after wire_allowed

pub before :
    {B : Type 0} {k : M Field B} {post : B → Wire → Type 0} (w : Wire)
    (fields : List (Field × Value))
    → wire_allowed (modify fields) w ≡ true
    → EnsuresWire (wire_after (modify fields) w) post k
    → EnsuresWire w post (write fields >>= λ _. k)
before = write_then-Ensures wire_after wire_allowed

pub asked :
    {B : Type 0} {f : Field} {k : ℕ → M Field B} {w : Wire} {post : B → Wire → Type 0}
    → ((v : ℕ) → wire_allowed (sample f v) w ≡ true)
    → ((v : ℕ) → EnsuresWire (wire_after (sample f v) w) post (k v))
    → EnsuresWire w post (read f >>= k)
asked = read_then-Ensures wire_after wire_allowed

-- a wait that changes nothing of the wires
pub waited :
    {B : Type 0} {k : M Field B} {post : B → Wire → Type 0} (f : Field) (stop : ℕ → Bool) (w : Wire)
    → ((v : ℕ) → wire_allowed (sample f v) w ≡ true)
    → ((v : ℕ) → wire_after (sample f v) w ≡ w)
    → EnsuresWire w post k
    → EnsuresWire w post (poll f stop >>= λ _. k)
waited f stop w h same q =
    part_then-Ensures wire_after wire_allowed
      (poll-Keeps wire_after wire_allowed h (λ v e. same v) (λ v e. same v)) (λ _. q)
