-- ===== src/QspiId/Uid.antt =====
-- The identification number that s19_quadspi/src/bin/s19c01_read_flash_id.rs puts together.
use rust_on_stm32_notebook.Common.{ℕ, suc, ◌+◌, ◌*◌, ◌%◌, ◌^◌, ◌<◌, ◌≡◌, refl, List, ◌∷◌, arith}
use rust_on_stm32_notebook.Hardware.{done, panic}
use rust_on_stm32_notebook.QspiId.{swap_bytes32, read_words, read_uid}

-- The chip's bytes arrive in a word from the low byte up.
abbrev pub word : ℕ → ℕ → ℕ → ℕ → ℕ
word b0 b1 b2 b3 = b0 + 256 * b1 + 65536 * b2 + 16777216 * b3

-- The number that is written with the same bytes from the high byte down.
abbrev pub number : ℕ → ℕ → ℕ → ℕ → ℕ
number b0 b1 b2 b3 = 16777216 * b0 + 65536 * b1 + 256 * b2 + b3

word_fits :
    (b0 b1 b2 b3 : ℕ)
    → b0 < 256
    → b1 < 256
    → b2 < 256
    → b3 < 256
    → word b0 b1 b2 b3 % 2 ^ 32 ≡ word b0 b1 b2 b3
word_fits b0 b1 b2 b3 h0 h1 h2 h3 = omega arith

swap_bytes32-word :
    (b0 b1 b2 b3 : ℕ)
    → b0 < 256
    → b1 < 256
    → b2 < 256
    → b3 < 256
    → swap_bytes32 (word b0 b1 b2 b3) ≡ number b0 b1 b2 b3
swap_bytes32-word b0 b1 b2 b3 h0 h1 h2 h3 = omega arith

-- If QUADSPI is busy with a word twice and then not, the number logged has the eight bytes in the order in
-- which the chip sends them: the first is the highest.
pub uid_in_order :
    (x y b0 b1 b2 b3 b4 b5 b6 b7 : ℕ) (rest : List ℕ)
    → b0 < 256
    → b1 < 256
    → b2 < 256
    → b3 < 256
    → b4 < 256
    → b5 < 256
    → b6 < 256
    → b7 < 256
    → (read_uid (suc x ∷ word b0 b1 b2 b3 ∷ suc y ∷ word b4 b5 b6 b7 ∷ 0 ∷ rest)).outcome
      ≡ done (number b0 b1 b2 b3 * 2 ^ 32 + number b4 b5 b6 b7)
unfolding read_uid read_words
uid_in_order x y b0 b1 b2 b3 b4 b5 b6 b7 rest h0 h1 h2 h3 h4 h5 h6 h7 =
    rw
      (
        word_fits b0 b1 b2 b3 h0 h1 h2 h3,
        word_fits b4 b5 b6 b7 h4 h5 h6 h7,
        swap_bytes32-word b0 b1 b2 b3 h0 h1 h2 h3,
        swap_bytes32-word b4 b5 b6 b7 h4 h5 h6 h7,
      )
      refl

-- Nothing bounds the index: where QUADSPI is busy with a third word, whatever the words are, the program
-- panics on the array of two.
pub third_word_panics :
    (x y z w0 w1 w2 : ℕ) (rest : List ℕ)
    → (read_uid (suc x ∷ w0 ∷ suc y ∷ w1 ∷ suc z ∷ w2 ∷ rest)).outcome ≡ panic
unfolding read_uid read_words
third_word_panics x y z w0 w1 w2 rest = refl
