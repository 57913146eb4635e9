-- ===== src/SpiDma/Guard.antt =====
-- The order of the set-up of s08_dma/src/bin/s08c02_spi_slave_read_dma.rs: what the hardware locks
-- while the stream runs, and when the interrupts may come.
use rust_on_stm32_notebook.Common.{
  ℕ, ◌≡◌, refl, Bool, true, false, not, if◌then◌else◌, List, ◌∷◌, zero, suc,
}
use rust_on_stm32_notebook.Hardware.{
  Value, enabled, Effect, modify, sample, M, pure, write, is_set, ◌>>◌,
}
use rust_on_stm32_notebook.Hardware.Monitor.{
  respects, Keeps, pure-Keeps, write-Keeps, >>=-Keeps, read_then-Keeps, poll-Keeps,
}
use rust_on_stm32_notebook.SpiDma
use rust_on_stm32_notebook.SpiDma.{Field}
use rust_on_stm32_notebook.SpiDma.Setup.{
  disable_stream, stop_stream, configure_stream, setup_dma1, setup_spi2, setup_spi1, main,
}

-- What is known of the stream: perhaps running, read as stopped, or configured and started.
pub data Stream : Type 0 where
  unknown stopped started : Stream

-- Reading EN as clear says that the stream is stopped; setting EN starts it.
abbrev pub stream_after : Effect Field → Stream → Stream
stream_after (sample SpiDma.stream_en zero) s = stopped
stream_after (sample SpiDma.stream_en (suc v)) s = unknown
stream_after (modify ((SpiDma.stream_en, enabled) ∷ fs)) s = started
stream_after _ s = s

abbrev pub is_stopped : Stream → Bool
is_stopped stopped = true
is_stopped _ = false

abbrev pub is_started : Stream → Bool
is_started started = true
is_started _ = false

-- The stream is configured only while it is stopped, and enabled only then; the slave asks for
-- transfers, and the interrupts are unmasked, only after it was started.
abbrev pub stream_allowed : Effect Field → Stream → Bool
stream_allowed (modify ((SpiDma.dir, v) ∷ fs)) s = is_stopped s
stream_allowed (modify ((SpiDma.dmdis, v) ∷ fs)) s = is_stopped s
stream_allowed (modify ((SpiDma.pa, v) ∷ fs)) s = is_stopped s
stream_allowed (modify ((SpiDma.m0a, v) ∷ fs)) s = is_stopped s
stream_allowed (modify ((SpiDma.ndt, v) ∷ fs)) s = is_stopped s
stream_allowed (modify ((SpiDma.stream_en, enabled) ∷ fs)) s = is_stopped s
stream_allowed (modify ((SpiDma.rxdmaen, v) ∷ fs)) s = is_started s
stream_allowed (modify ((SpiDma.nvic_spi1, v) ∷ fs)) s = is_started s
stream_allowed (modify ((SpiDma.nvic_dma1_stream3, v) ∷ fs)) s = is_started s
stream_allowed _ s = true

abbrev KeepsStream : {A : Type 0} → Stream → Stream → M Field A → Type 0
KeepsStream = Keeps stream_after stream_allowed

-- a write before the rest of a program
write_then :
    {k : M Field (Unit {0})} (s s' : Stream) (fields : List (Field × Value))
    → stream_allowed (modify fields) s ≡ true
    → KeepsStream (stream_after (modify fields) s) s' k
    → KeepsStream s s' (write fields >> k)
write_then s s' fields h q =
    >>=-Keeps stream_after stream_allowed (write-Keeps stream_after stream_allowed s fields h)
      (λ _. q)

last_write :
    (s : Stream) (fields : List (Field × Value))
    → stream_allowed (modify fields) s ≡ true
    → KeepsStream s (stream_after (modify fields) s) (write fields)
last_write = write-Keeps stream_after stream_allowed

disable_stream-Keeps : KeepsStream unknown stopped disable_stream
unfolding disable_stream
disable_stream-Keeps =
    write_then unknown stopped _ refl
      (poll-Keeps stream_after stream_allowed (λ v. refl) still stops)
  where
    still :
        (v : ℕ)
        → not (is_set v) ≡ false
        → stream_after (sample SpiDma.stream_en v) unknown ≡ unknown
    still zero e = cc
    still (suc v) e = refl

    stops :
        (v : ℕ) → not (is_set v) ≡ true → stream_after (sample SpiDma.stream_en v) unknown ≡ stopped
    stops zero e = refl
    stops (suc v) e = cc

stop_stream-Keeps : KeepsStream unknown stopped stop_stream
unfolding stop_stream
stop_stream-Keeps = read_then-Keeps stream_after stream_allowed (λ v. refl) next
  where
    next :
        (v : ℕ)
        → KeepsStream
            (stream_after (sample SpiDma.stream_en v) unknown)
            stopped
            (if is_set v then disable_stream else pure tt)
    next zero = pure-Keeps stream_after stream_allowed stopped tt
    next (suc v) = disable_stream-Keeps

configure_stream-Keeps : (dr dst : ℕ) → KeepsStream stopped stopped (configure_stream dr dst)
unfolding configure_stream
configure_stream-Keeps dr dst = write_then stopped stopped _ refl (
    write_then stopped stopped _ refl (
      write_then stopped stopped _ refl
        (write_then stopped stopped _ refl (last_write stopped _ refl))))

setup_dma1-Keeps : (dr dst : ℕ) → KeepsStream unknown started (setup_dma1 dr dst)
unfolding setup_dma1
setup_dma1-Keeps dr dst = write_then unknown started _ refl (
    write_then unknown started _ refl (
      write_then unknown started _ refl (
        >>=-Keeps stream_after stream_allowed stop_stream-Keeps (λ _.
          >>=-Keeps stream_after stream_allowed (configure_stream-Keeps dr dst) (λ _.
            write_then stopped started _ refl
              (write_then stopped started _ refl (last_write stopped _ refl)))))))

setup_spi2-Keeps : KeepsStream started started setup_spi2
unfolding setup_spi2
setup_spi2-Keeps = write_then started started _ refl (
    write_then started started _ refl (
      write_then started started _ refl (
        write_then started started _ refl (
          write_then started started _ refl
            (write_then started started _ refl (last_write started _ refl))))))

setup_spi1-Keeps : KeepsStream started started setup_spi1
unfolding setup_spi1
setup_spi1-Keeps = write_then started started _ refl (
    write_then started started _ refl (
      write_then started started _ refl (
        write_then started started _ refl (
          write_then started started _ refl
            (write_then started started _ refl (last_write started _ refl))))))

-- Whatever the hardware answers, also where the wait for the stream never ends: `main` writes the
-- configuration of the DMA stream and enables it only when its last read of EN was clear, and lets
-- the slave ask for transfers and unmasks the two interrupts only after it has enabled the stream.
pub main_configures_stopped :
    (spi2_dr dst_list : ℕ) (reads : List ℕ)
    → respects stream_after stream_allowed unknown (main spi2_dr dst_list reads).trace ≡ true
unfolding main
main_configures_stopped dr dst reads = whole.safe reads
  where
    whole : KeepsStream unknown started (main dr dst)
    whole = >>=-Keeps stream_after stream_allowed (setup_dma1-Keeps dr dst) (λ _.
        >>=-Keeps stream_after stream_allowed setup_spi2-Keeps (λ _.
          >>=-Keeps stream_after stream_allowed setup_spi1-Keeps
            (λ _. write_then started started _ refl (last_write started _ refl))))
