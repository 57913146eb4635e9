-- ===== src/SpiPair/Session.antt =====
-- Series of interrupts of s03_spi/src/bin/s03c02_spi1_to_spi2.rs: what the master may do when.
use rust_on_stm32_notebook.Common.{
  ◌%◌, ◌^◌, ℕ, zero, suc, ◌≡◌, refl, Bool, true, false, if◌then◌else◌, List, [], ◌∷◌,
}
use rust_on_stm32_notebook.Hardware.{
  low, sample, pure, fail, write, is_set, when_true, unwrap, ◌>>=◌,
}
use rust_on_stm32_notebook.Hardware.Monitor.{respects, pure-Keeps}
use rust_on_stm32_notebook.Hardware.Ensures.{if-Ensures, >>=-Ensures, part_then-Ensures}
use rust_on_stm32_notebook.SpiPair
use rust_on_stm32_notebook.SpiPair.{
  Field, Shared, at_start, main, send_word, pull_and_send, send_if_empty, release_master,
  finish_master, serve_master, spi1, Received, release_slave, word_of, receive_word, serve_slave,
  spi2, Interrupt, spi1_comes, spi2_comes, After, session,
}
use rust_on_stm32_notebook.SpiPair.Wires.{
  Wire, at_reset, wire_after, wire_allowed, Agree, ready, gone, Middle, unsent, sending,
  EnsuresWire, done_with, panics, before, asked, waited,
}

send_word-Ensures :
    (cs slave : Bool)
    → EnsuresWire
        (record { cs_low = true; word_sent = false; released = false })
        Middle
        (send_word (record { master = true; master_cs = cs; slave = slave; sent = false }))
unfolding send_word
send_word-Ensures cs slave = before _ _ refl (asked (λ v. refl) next)
  where
    next :
        (v : ℕ)
        → EnsuresWire
            (record { cs_low = true; word_sent = true; released = false })
            Middle
            (if is_set v
              then pure (record { master = true; master_cs = cs; slave = slave; sent = true })
              else fail)
    next zero = panics _
    next (suc v) = done_with _ _ sending

-- whatever the pin says, the chip select is low when the word is sent
pull_and_send-Ensures :
    (cs slave down : Bool)
    → EnsuresWire
        (record { cs_low = down; word_sent = false; released = false })
        Middle
        (pull_and_send (record { master = true; master_cs = cs; slave = slave; sent = false }))
unfolding pull_and_send
pull_and_send-Ensures cs slave down = asked (λ v. refl) next
  where
    next :
        (v : ℕ)
        → EnsuresWire
            (wire_after
              (sample SpiPair.cs_is_high v)
              (record { cs_low = down; word_sent = false; released = false }))
            Middle
            (when_true (is_set v) (write ((SpiPair.cs_pin, low) ∷ [])) >>= λ _.
              send_word (record { master = true; master_cs = cs; slave = slave; sent = false }))
    next zero =
        part_then-Ensures wire_after wire_allowed (pure-Keeps wire_after wire_allowed _ tt)
          (λ _. send_word-Ensures cs slave)
    next (suc v) = before _ _ refl (send_word-Ensures cs slave)

send_if_empty-Ensures :
    (cs slave down : Bool)
    → EnsuresWire
        (record { cs_low = down; word_sent = false; released = false })
        Middle
        (send_if_empty (record { master = true; master_cs = cs; slave = slave; sent = false }))
unfolding send_if_empty
send_if_empty-Ensures cs slave down = asked (λ v. refl) (next cs)
  where
    next :
        (cs : Bool) (v : ℕ)
        → EnsuresWire
            (record { cs_low = down; word_sent = false; released = false })
            Middle
            (if is_set v
              then if cs
                then pull_and_send
                    (record { master = true; master_cs = cs; slave = slave; sent = false })
                else fail
              else pure (record { master = true; master_cs = cs; slave = slave; sent = false }))
    next cs zero = done_with _ _ unsent
    next true (suc v) = pull_and_send-Ensures true slave down
    next false (suc v) = panics _

finish_master-Ensures : (s : Shared) (w : Wire) → Middle s w → EnsuresWire w Agree (finish_master s)
unfolding finish_master release_master
finish_master-Ensures s w unsent = done_with _ _ ready
finish_master-Ensures s w sending =
    waited SpiPair.master_busy _ _ (λ v. refl) (λ v. refl)
      (before _ _ refl (before _ _ refl (before _ _ refl (done_with _ _ gone))))

spi1-Ensures : (s : Shared) (w : Wire) → Agree s w → EnsuresWire w Agree (spi1 s)
unfolding spi1 serve_master finish_master
spi1-Ensures s w (ready {cs} {slave} {down}) = asked (λ v. refl) next
  where
    next :
        (v : ℕ)
        → EnsuresWire
            (record { cs_low = down; word_sent = false; released = false })
            Agree
            (if is_set v
              then pure (record { master = true; master_cs = cs; slave = slave; sent = false })
              else send_if_empty
                  (record { master = true; master_cs = cs; slave = slave; sent = false })
                >>= finish_master)
    next zero =
        >>=-Ensures wire_after wire_allowed (send_if_empty-Ensures cs slave down)
          finish_master-Ensures
    next (suc v) = done_with _ _ ready
spi1-Ensures s w gone = before _ _ refl (panics _)

without_slave : (s : Shared) (w : Wire) → Agree s w → Agree (record s { slave = false }) w
without_slave s w ready = ready
without_slave s w gone = gone

release_slave-Ensures : (s : Shared) (w : Wire) → Agree s w → EnsuresWire w Agree (release_slave s)
unfolding release_slave
release_slave-Ensures s w a =
    waited SpiPair.slave_busy _ _ (λ v. refl) (λ v. refl)
      (before _ _ refl (before _ _ refl (before _ _ refl (done_with _ _ (without_slave s w a)))))

abbrev AgreeAfter : Received → Wire → Type 0
AgreeAfter r w = Agree r.shared w

receive_word-Ensures :
    (s : Shared) (w : Wire) → Agree s w → EnsuresWire w AgreeAfter (receive_word s)
unfolding receive_word
receive_word-Ensures s w a = asked (λ v. refl) next
  where
    finished :
        (word : ℕ) (b : Bool)
        → EnsuresWire w AgreeAfter (
            (if b then release_slave s else pure s) >>= λ left.
            pure (record { shared = left; word = word }))
    finished word true =
        >>=-Ensures wire_after wire_allowed (release_slave-Ensures s w a)
          (λ left x h. done_with _ _ h)
    finished word false = done_with _ _ a

    next :
        (v : ℕ)
        → EnsuresWire w AgreeAfter (
            unwrap (word_of v) >>= λ word. (if s.sent then release_slave s else pure s) >>= λ left.
            pure (record { shared = left; word = word }))
    next zero = panics _
    next (suc d) = finished (d % 2 ^ 16) s.sent

spi2-Ensures : (s : Shared) (w : Wire) → Agree s w → EnsuresWire w AgreeAfter (spi2 s)
unfolding spi2 serve_slave
spi2-Ensures s w a =
    if-Ensures wire_after wire_allowed w s.slave (λ e. asked (λ v. refl) next) (λ e. panics w)
  where
    next : (v : ℕ) → EnsuresWire w AgreeAfter (if is_set v then receive_word s else fail)
    next zero = panics w
    next (suc v) = receive_word-Ensures s w a

abbrev AgreeEnd : After → Wire → Type 0
AgreeEnd r w = Agree r.shared w

session-Ensures :
    (interrupts : List Interrupt) (s : Shared) (w : Wire)
    → Agree s w
    → EnsuresWire w AgreeEnd (session interrupts s)
unfolding session
session-Ensures [] s w a =
    let m = done_with {post = AgreeEnd} w (record { shared = s; logged = [] }) a in
    record { safe = m.safe; leaves = m.leaves }
session-Ensures (spi1_comes ∷ next) s w a =
    let m = >>=-Ensures wire_after wire_allowed (spi1-Ensures s w a) (session-Ensures next) in
    record { safe = m.safe; leaves = m.leaves }
session-Ensures (spi2_comes ∷ next) s w a =
    let m = >>=-Ensures wire_after wire_allowed (spi2-Ensures s w a) (λ r x h.
      >>=-Ensures wire_after wire_allowed {mid = AgreeEnd} (session-Ensures next r.shared x h)
        (λ e y k.
          done_with {post = AgreeEnd} y (record { shared = e.shared; logged = r.word ∷ e.logged })
            k)) in
    record { safe = m.safe; leaves = m.leaves }

main-Ensures : EnsuresWire at_reset Agree main
unfolding main
main-Ensures = before _ _ refl (
    before _ _ refl (
      before _ _ refl (
        before _ _ refl (
          before _ _ refl (
            before _ _ refl (
              before _ _ refl (
                before _ _ refl (
                  before _ _ refl (
                    before _ _ refl (
                      before _ _ refl (
                        before _ _ refl (
                          before _ _ refl (
                            before _ _ refl (
                              before _ _ refl (
                                before _ _ refl (
                                  before _ _ refl
                                    (before _ _ refl (done_with _ _ ready))))))))))))))))))

-- From reset on, whatever interrupts come in whatever order, also masked ones, and whatever the drivers
-- answer, also where a wait never ends or a handler panics: the word is sent at most once and only with
-- the chip select low, the master is disabled and released only after it was sent, and is asked nothing
-- after that.
pub word_sent_once :
    (interrupts : List Interrupt) (reads : List ℕ)
    → respects wire_after wire_allowed at_reset ((main >>= session interrupts) reads).trace ≡ true
word_sent_once interrupts reads = whole.safe reads
  where
    whole : EnsuresWire at_reset AgreeEnd (main >>= session interrupts)
    whole = >>=-Ensures wire_after wire_allowed main-Ensures (session-Ensures interrupts)
