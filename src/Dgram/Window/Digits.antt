-- ===== src/Dgram/Window/Digits.antt =====
-- The bits of the window's words, and what setting one does.
use braid.Prelude.{
  ℕ, zero, suc, ◌/◌, ◌%◌, ◌^◌, ◌<◌, ◌≡◌, refl, sym, ap, ◌∙◌, ◌≢◌, inl, inr, List, [], ◌∷◌, arith,
  ◌==◌, Bool-cases, length,
}
use braid.Prelude.Bits.{
  bit, bit-bit_or, bit-small, bit-power_same, bit-tested, bit-power_other, bit_or-lt, power-lt,
}
use braid.Dgram.Window.{width, word_bits, word_at, or_word, position, set, get}
use Prim.Native.Nat.{bit_or}

-- The bit for the number that is `behind` the top.
unfoldable pub digit : ℕ → List ℕ → ℕ
digit behind seen = bit (behind % word_bits) (word_at (behind / word_bits) seen)

-- Four words of 64 bits.
pub record IsWords (seen : List ℕ) : Type 0 where
  pub four : length seen ≡ 4
  pub small : (i : ℕ) → word_at i seen < 2 ^ 64

pub get-digit : (k : ℕ) (seen : List ℕ) → get k seen ≡ (digit k seen == 1)
unfolding get position digit
get-digit k seen = ap (λ d. d == 1) (bit-tested (k % word_bits) (word_at (k / word_bits) seen))

word_at-or_word_same :
    (i mask : ℕ) (ws : List ℕ)
    → i < length ws
    → word_at i (or_word i mask ws) ≡ bit_or (word_at i ws) mask
unfolding word_at or_word
word_at-or_word_same i mask [] h = absurd (omega arith)
word_at-or_word_same zero mask (w ∷ ws) h = refl
word_at-or_word_same (suc i) mask (w ∷ ws) h = word_at-or_word_same i mask ws (omega arith)

word_at-or_word_other :
    (i j mask : ℕ) (ws : List ℕ) → i ≢ j → word_at j (or_word i mask ws) ≡ word_at j ws
unfolding word_at or_word
word_at-or_word_other i j mask [] h = refl
word_at-or_word_other zero zero mask (w ∷ ws) h = absurd (h refl)
word_at-or_word_other zero (suc j) mask (w ∷ ws) h = refl
word_at-or_word_other (suc i) zero mask (w ∷ ws) h = refl
word_at-or_word_other (suc i) (suc j) mask (w ∷ ws) h =
    word_at-or_word_other i j mask ws (λ e. h (ap suc e))

pub digit-set_same :
    (k : ℕ) (seen : List ℕ) → k < width → length seen ≡ 4 → digit k (set k seen) ≡ 1
unfolding digit set position
digit-set_same k seen h four =
    ap (bit (k % word_bits))
      (word_at-or_word_same (k / word_bits) (2 ^ (k % word_bits)) seen (omega arith))
    ∙ bit-bit_or (k % word_bits) (word_at (k / word_bits) seen) (2 ^ (k % word_bits))
    ∙ omega (
      arith,
      bit-power_same (k % word_bits),
      bit-small (k % word_bits) (word_at (k / word_bits) seen),
    )

pub digit-set_other :
    (j k : ℕ) (seen : List ℕ)
    → j ≢ k
    → k < width
    → length seen ≡ 4
    → digit j (set k seen) ≡ digit j seen
unfolding digit set position
digit-set_other j k seen other h four = elim (Bool-cases (k / word_bits == j / word_bits)) [
  | inl same ↦
      let e : k / word_bits ≡ j / word_bits = ground arith in
      let apart : k % word_bits ≢ j % word_bits = λ d. other (omega arith) in
      let r = j % word_bits in
      ap (λ i. bit r (word_at i (or_word (k / word_bits) (2 ^ (k % word_bits)) seen))) (sym e)
      ∙ ap (bit r) (word_at-or_word_same (k / word_bits) (2 ^ (k % word_bits)) seen (omega arith))
      ∙ bit-bit_or r (word_at (k / word_bits) seen) (2 ^ (k % word_bits))
      ∙ omega (arith, bit-power_other (k % word_bits) r apart)
      ∙ ap (λ i. bit r (word_at i seen)) e
  | inr apart ↦ ap (bit (j % word_bits)) (
      word_at-or_word_other (k / word_bits) (j / word_bits) (2 ^ (k % word_bits)) seen
        (λ e. ground arith))
]

length-or_word : (i mask : ℕ) (ws : List ℕ) → length (or_word i mask ws) ≡ length ws
unfolding or_word
length-or_word i mask [] = refl
length-or_word zero mask (w ∷ ws) = refl
length-or_word (suc i) mask (w ∷ ws) = omega (arith, length-or_word i mask ws)

or_word-small :
    (i mask : ℕ) (ws : List ℕ)
    → mask < 2 ^ 64
    → ((j : ℕ) → word_at j ws < 2 ^ 64)
    → (j : ℕ) → word_at j (or_word i mask ws) < 2 ^ 64
unfolding word_at or_word
or_word-small i mask [] m h j = omega arith
or_word-small zero mask (w ∷ ws) m h zero = bit_or-lt 64 w mask (h 0) m
or_word-small zero mask (w ∷ ws) m h (suc j) = h (suc j)
or_word-small (suc i) mask (w ∷ ws) m h zero = h 0
or_word-small (suc i) mask (w ∷ ws) m h (suc j) = or_word-small i mask ws m (λ k. h (suc k)) j

pub set-IsWords : (k : ℕ) (seen : List ℕ) → IsWords seen → IsWords (set k seen)
unfolding set position
set-IsWords k seen ok = record {
  four = length-or_word (k / word_bits) (2 ^ (k % word_bits)) seen ∙ ok.four;
  small =
      or_word-small (k / word_bits) (2 ^ (k % word_bits)) seen
        (power-lt (k % word_bits) 64 (omega arith)) ok.small;
}
