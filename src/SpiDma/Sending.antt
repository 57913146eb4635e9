-- ===== src/SpiDma/Sending.antt =====
-- What the master of s08_dma/src/bin/s08c02_spi_slave_read_dma.rs sends.
use rust_on_stm32_notebook.Common.{
  ℕ, zero, suc, ◌≡◌, refl, Bool, true, false, if◌then◌else◌, List, [], ◌∷◌, ◌++◌, take, arith, ap,
  sym, leb,
}
use rust_on_stm32_notebook.Hardware.{
  Value, bits, Effect, modify, Outcome, done, panic, waiting, Run,
}
use rust_on_stm32_notebook.SpiDma
use rust_on_stm32_notebook.SpiDma.{Field, src_list, disable_master, spi1}

-- The bytes that go to the data register of SPI1.
unfoldable pub wire : List (Effect Field) → List ℕ
wire [] = []
wire (modify ((SpiDma.spi1_dr, bits b) ∷ fs) ∷ t) = b ∷ wire t
wire (x ∷ t) = wire t

-- Whether the interrupt is masked.
unfoldable pub masks : List (Effect Field) → Bool
masks [] = false
masks (modify ((SpiDma.nvic_spi1, Value.masked) ∷ fs) ∷ t) = true
masks (x ∷ t) = masks t

-- After some interrupts: whether the program still runs, what it has sent, and whether it has masked
-- the interrupt.
pub record Sent : Type 0 where
  pub alive : Bool
  pub sent : List ℕ
  pub is_masked : Bool

abbrev pub then_sent : Run Field ℕ → (ℕ → Sent) → Sent
then_sent r k = go r.outcome
  where
    go : Outcome ℕ → Sent
    go (done i) =
        if masks r.trace
        then record { alive = true; sent = wire r.trace; is_masked = true }
        else record (k i) { sent = wire r.trace ++ (k i).sent }
    go panic = record { alive = false; sent = wire r.trace; is_masked = false }
    go waiting = record { alive = false; sent = wire r.trace; is_masked = false }

-- n requests of an empty data register from an index on: none is served after the interrupt was
-- masked.
unfoldable pub serve : ℕ → ℕ → Sent
serve zero index = record { alive = true; sent = []; is_masked = false }
serve (suc n) index = then_sent (spi1 index []) (λ i. serve n i)

take-nil : (n : ℕ) → take {A = ℕ} n [] ≡ []
take-nil zero = refl
take-nil (suc n) = refl

masked_by : (n : ℕ) → leb 8 (suc (suc (suc (suc (suc (suc (suc (suc n)))))))) ≡ true
masked_by n = ground arith

-- However many requests come, the handler never panics: with n of them SPI1 sends the first n bytes of
-- the list, all eight if n is larger, and it has masked its interrupt exactly if n is at least 8.
pub sends_list :
    (n : ℕ)
    → ((serve n 0).alive ≡ true)
      × (((serve n 0).sent ≡ take n src_list) × ((serve n 0).is_masked ≡ leb 8 n))
unfolding serve spi1 disable_master wire masks
sends_list zero = (refl, (refl, refl))
sends_list (suc zero) = (refl, (refl, refl))
sends_list (suc (suc zero)) = (refl, (refl, refl))
sends_list (suc (suc (suc zero))) = (refl, (refl, refl))
sends_list (suc (suc (suc (suc zero)))) = (refl, (refl, refl))
sends_list (suc (suc (suc (suc (suc zero))))) = (refl, (refl, refl))
sends_list (suc (suc (suc (suc (suc (suc zero)))))) = (refl, (refl, refl))
sends_list (suc (suc (suc (suc (suc (suc (suc zero))))))) = (refl, (refl, refl))
sends_list (suc (suc (suc (suc (suc (suc (suc (suc n)))))))) =
    (refl, (ap (λ t. src_list ++ t) (sym (take-nil n)), sym (masked_by n)))
