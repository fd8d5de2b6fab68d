-- ===== src/Dgram/Window/Slide.antt =====
-- Sliding the window moves every bit up by as much, and what goes past the end is gone.
use braid.Prelude.{
  ℕ, zero, suc, ◌+◌, ◌-◌, ◌*◌, ◌/◌, ◌%◌, ◌^◌, ◌≤◌, ◌<◌, max, ◌≡◌, refl, sym, ap, ◌∙◌, inl, inr,
  List, [], ◌∷◌, arith, ltb, leb, ltb→lt, leb→le, Bool-cases, length,
}
use braid.Prelude.Bits.{
  bit, bit-bit_or, bit-zero, bit-shifted, bit-shifted_low, bit-halved, bit-cut, bit-cut_high,
  bit_or-lt,
}
use braid.Dgram.Window.{
  width, word_bits, no_words, word_at, moved_word, move_words, carry_bits, slide_words, slide_bits,
  slide,
}
use braid.Dgram.Window.Digits.{digit, IsWords}
use Prim.Native.Nat.{bit_or}
use native.Mathlib.Nat.{div-le_self}

word_at-move_words :
    (by i : ℕ) (seen : List ℕ) → i < 4 → word_at i (move_words by seen) ≡ moved_word by seen i
unfolding word_at move_words
word_at-move_words by zero seen h = refl
word_at-move_words by (suc zero) seen h = refl
word_at-move_words by (suc (suc zero)) seen h = refl
word_at-move_words by (suc (suc (suc zero))) seen h = refl
word_at-move_words by (suc (suc (suc (suc i)))) seen h = absurd (omega arith)

moved_low : (by i : ℕ) (seen : List ℕ) → i < by → moved_word by seen i ≡ 0
unfolding moved_word
moved_low by i seen h = ground arith

moved_high : (by i : ℕ) (seen : List ℕ) → by ≤ i → moved_word by seen i ≡ word_at (i - by) seen
unfolding moved_word
moved_high by i seen h = ground arith

-- A bit named by its word and its place there.
pub digit_at :
    (k i r : ℕ) (seen : List ℕ) → k / 64 ≡ i → k % 64 ≡ r → bit r (word_at i seen) ≡ digit k seen
unfolding digit
digit_at k i r seen e d =
    ap (λ x. bit x (word_at i seen)) (sym d) ∙ ap (λ x. bit (k % 64) (word_at x seen)) (sym e)

digit-move_words_low :
    (by j : ℕ) (seen : List ℕ) → j < width → j < by * word_bits → digit j (move_words by seen) ≡ 0
unfolding digit
digit-move_words_low by j seen h low =
    ap (bit (j % word_bits)) (
      word_at-move_words by (j / word_bits) seen (omega arith)
      ∙ moved_low by (j / word_bits) seen (omega arith))
    ∙ bit-zero (j % word_bits)

digit-move_words_high :
    (by j k : ℕ) (seen : List ℕ)
    → j < width
    → k + by * word_bits ≡ j
    → digit j (move_words by seen) ≡ digit k seen
unfolding digit
digit-move_words_high by j k seen h e =
    ap (bit (j % word_bits)) (
      word_at-move_words by (j / word_bits) seen (omega arith)
      ∙ moved_high by (j / word_bits) seen (omega arith))
    ∙ digit_at k (j / word_bits - by) (j % word_bits) seen (omega arith) (omega arith)

-- What a word takes over from the one below it.
carried : ℕ → ℕ → ℕ → List ℕ → ℕ
carried bits carry zero ws = carry
carried bits carry (suc i) ws = word_at i ws / 2 ^ (word_bits - bits)

carried_on :
    (bits carry i w : ℕ) (ws : List ℕ)
    → carried bits (w / 2 ^ (word_bits - bits)) i ws ≡ carried bits carry (suc i) (w ∷ ws)
unfolding carried word_at
carried_on bits carry zero w ws = refl
carried_on bits carry (suc i) w ws = refl

word_at-carry_bits :
    (bits carry i : ℕ) (ws : List ℕ)
    → i < length ws
    → word_at i (carry_bits bits carry ws)
      ≡ bit_or (word_at i ws * 2 ^ bits % 2 ^ word_bits) (carried bits carry i ws)
unfolding word_at carry_bits carried
word_at-carry_bits bits carry i [] h = absurd (omega arith)
word_at-carry_bits bits carry zero (w ∷ ws) h = refl
word_at-carry_bits bits carry (suc i) (w ∷ ws) h =
    word_at-carry_bits bits (w / 2 ^ (word_bits - bits)) i ws (omega arith)
    ∙ ap (bit_or (word_at i ws * 2 ^ bits % 2 ^ word_bits)) (carried_on bits carry i w ws)

digit-carry_bits :
    (bits j : ℕ) (seen : List ℕ)
    → length seen ≡ 4
    → j < width
    → digit j (carry_bits bits 0 seen)
      ≡ max
          (bit (j % 64) (word_at (j / 64) seen * 2 ^ bits))
          (bit (j % 64) (carried bits 0 (j / 64) seen))
unfolding digit
digit-carry_bits bits j seen four h =
    ap (bit (j % 64)) (word_at-carry_bits bits 0 (j / 64) seen (omega arith))
    ∙ bit-bit_or (j % 64) (word_at (j / 64) seen * 2 ^ bits % 2 ^ word_bits)
        (carried bits 0 (j / 64) seen)
    ∙ ap (λ x. max x (bit (j % 64) (carried bits 0 (j / 64) seen)))
        (bit-cut 64 (j % 64) (word_at (j / 64) seen * 2 ^ bits) (omega arith))

-- The bits taken over reach below the shift alone.
carried-high :
    (bits i r : ℕ) (seen : List ℕ)
    → IsWords seen
    → bits ≤ 64
    → bits ≤ r
    → bit r (carried bits 0 i seen) ≡ 0
unfolding carried
carried-high bits zero r seen ok h le = bit-zero r
carried-high bits (suc i) r seen ok h le =
    bit-halved (64 - bits) r (64 - bits + r) (word_at i seen) refl
    ∙ bit-cut_high 64 (64 - bits + r) (word_at i seen) (ok.small i) (omega arith)

digit-carry_bits_low :
    (bits j : ℕ) (seen : List ℕ)
    → IsWords seen
    → j < bits
    → bits < 64
    → digit j (carry_bits bits 0 seen) ≡ 0
unfolding carried
digit-carry_bits_low bits j seen ok h small =
    digit-carry_bits bits j seen ok.four (omega arith)
    ∙ omega (
      arith,
      bit-shifted_low bits (j % 64) (word_at (j / 64) seen) (omega arith),
      ap (λ i. bit (j % 64) (carried bits 0 i seen)) {x = j / 64} {y = 0} (omega arith),
      bit-zero (j % 64),
    )

from_below :
    (bits i r k : ℕ) (seen : List ℕ)
    → r < bits
    → bits < 64
    → k / 64 + 1 ≡ i
    → k % 64 ≡ 64 - bits + r
    → bit r (carried bits 0 i seen) ≡ digit k seen
unfolding carried
from_below bits zero r k seen h small e d = absurd (omega arith)
from_below bits (suc i) r k seen h small e d =
    bit-halved (64 - bits) r (64 - bits + r) (word_at i seen) refl
    ∙ digit_at k i (64 - bits + r) seen (omega arith) d

digit-carry_bits_high :
    (bits j k : ℕ) (seen : List ℕ)
    → IsWords seen
    → 0 < bits
    → bits < 64
    → j < width
    → k + bits ≡ j
    → digit j (carry_bits bits 0 seen) ≡ digit k seen
digit-carry_bits_high bits j k seen ok pos small h e =
    digit-carry_bits bits j seen ok.four h ∙ elim (Bool-cases (leb bits (j % 64))) [
      | inl within ↦ omega (
        arith,
        leb→le bits (j % 64) within,
        bit-shifted bits (j % 64 - bits) (j % 64) (word_at (j / 64) seen)
            (omega (arith, leb→le bits (j % 64) within)),
        carried-high bits (j / 64) (j % 64) seen ok (omega arith) (leb→le bits (j % 64) within),
        digit_at k (j / 64) (j % 64 - bits) seen (omega (arith, leb→le bits (j % 64) within))
            (omega (arith, leb→le bits (j % 64) within)),
      )
      | inr across ↦
          let short : j % 64 < bits = ground arith in
          omega (
            arith,
            bit-shifted_low bits (j % 64) (word_at (j / 64) seen) short,
            from_below bits (j / 64) (j % 64) k seen short small (omega arith) (omega arith),
          )
    ]

moved-small : (by : ℕ) (seen : List ℕ) → IsWords seen → (i : ℕ) → moved_word by seen i < 2 ^ 64
unfolding moved_word
moved-small by seen ok i = elim (Bool-cases (leb by i)) [
  | inl in_range ↦ rw in_range (ok.small (i - by))
  | inr below ↦ rw below (omega arith)
]

move_words-IsWords : (by : ℕ) (seen : List ℕ) → IsWords seen → IsWords (move_words by seen)
unfolding move_words word_at
move_words-IsWords by seen ok = record { four = refl; small = small_word }
  where
    small_word : (i : ℕ) → word_at i (move_words by seen) < 2 ^ 64
    small_word zero = moved-small by seen ok 0
    small_word (suc zero) = moved-small by seen ok 1
    small_word (suc (suc zero)) = moved-small by seen ok 2
    small_word (suc (suc (suc zero))) = moved-small by seen ok 3
    small_word (suc (suc (suc (suc i)))) = omega arith

length-carry_bits : (bits carry : ℕ) (ws : List ℕ) → length (carry_bits bits carry ws) ≡ length ws
unfolding carry_bits
length-carry_bits bits carry [] = refl
length-carry_bits bits carry (w ∷ ws) =
    omega (arith, length-carry_bits bits (w / 2 ^ (word_bits - bits)) ws)

carry_bits-small :
    (bits carry : ℕ) (ws : List ℕ)
    → carry < 2 ^ 64
    → ((i : ℕ) → word_at i ws < 2 ^ 64)
    → (i : ℕ) → word_at i (carry_bits bits carry ws) < 2 ^ 64
unfolding carry_bits word_at
carry_bits-small bits carry [] c h i = omega arith
carry_bits-small bits carry (w ∷ ws) c h zero =
    bit_or-lt 64 (w * 2 ^ bits % 2 ^ word_bits) carry (omega arith) c
carry_bits-small bits carry (w ∷ ws) c h (suc i) =
    carry_bits-small bits (w / 2 ^ (word_bits - bits)) ws
      (omega (arith, div-le_self w (2 ^ (word_bits - bits)), h 0)) (λ k. h (suc k)) i

-- Sliding by less than the width.
slide_bits-IsWords : (bits : ℕ) (seen : List ℕ) → IsWords seen → IsWords (slide_bits bits seen)
unfolding slide_bits
slide_bits-IsWords bits seen ok = elim (Bool-cases (ltb 0 bits)) [
  | inl some_bits ↦ rw some_bits (record {
    four = length-carry_bits bits 0 seen ∙ ok.four;
    small = carry_bits-small bits 0 seen (omega arith) ok.small;
  })
  | inr aligned ↦ rw aligned ok
]

slide_words-IsWords : (by : ℕ) (seen : List ℕ) → IsWords seen → IsWords (slide_words by seen)
unfolding slide_words
slide_words-IsWords by seen ok = elim (Bool-cases (ltb 0 by)) [
  | inl some_words ↦ rw some_words (move_words-IsWords by seen ok)
  | inr none_moved ↦ rw none_moved ok
]

digit-slide_words_low :
    (by j : ℕ) (seen : List ℕ) → j < width → j < by * word_bits → digit j (slide_words by seen) ≡ 0
unfolding slide_words
digit-slide_words_low by j seen h low = elim (Bool-cases (ltb 0 by)) [
  | inl some_words ↦ rw some_words (digit-move_words_low by j seen h low)
  | inr none_moved ↦ absurd (ground (arith, none_moved))
]

digit-slide_words_high :
    (by j k : ℕ) (seen : List ℕ)
    → j < width
    → k + by * word_bits ≡ j
    → digit j (slide_words by seen) ≡ digit k seen
unfolding slide_words
digit-slide_words_high by j k seen h e = elim (Bool-cases (ltb 0 by)) [
  | inl some_words ↦ rw some_words (digit-move_words_high by j k seen h e)
  | inr none_moved ↦ rw none_moved (ap (λ i. digit i seen) {x = j} {y = k} (ground arith))
]

digit-slide_bits_low :
    (bits j : ℕ) (seen : List ℕ)
    → IsWords seen
    → j < bits
    → bits < 64
    → digit j (slide_bits bits seen) ≡ 0
unfolding slide_bits
digit-slide_bits_low bits j seen ok h small = elim (Bool-cases (ltb 0 bits)) [
  | inl some_bits ↦ rw some_bits (digit-carry_bits_low bits j seen ok h small)
  | inr aligned ↦ absurd (ground (arith, aligned))
]

digit-slide_bits_high :
    (bits j k : ℕ) (seen : List ℕ)
    → IsWords seen
    → bits < 64
    → j < width
    → k + bits ≡ j
    → digit j (slide_bits bits seen) ≡ digit k seen
unfolding slide_bits
digit-slide_bits_high bits j k seen ok small h e = elim (Bool-cases (ltb 0 bits)) [
  | inl some_bits ↦
      rw some_bits (digit-carry_bits_high bits j k seen ok (ltb→lt 0 bits some_bits) small h e)
  | inr aligned ↦ rw aligned (ap (λ i. digit i seen) {x = j} {y = k} (ground arith))
]

pub new-IsWords : IsWords no_words
unfolding word_at
new-IsWords = record { four = refl; small = no_word }
  where
    no_word : (i : ℕ) → word_at i no_words < 2 ^ 64
    no_word zero = omega arith
    no_word (suc zero) = omega arith
    no_word (suc (suc zero)) = omega arith
    no_word (suc (suc (suc zero))) = omega arith
    no_word (suc (suc (suc (suc i)))) = omega arith

pub slide-IsWords : (by : ℕ) (seen : List ℕ) → IsWords seen → IsWords (slide by seen)
unfolding slide word_at
slide-IsWords by seen ok = elim (Bool-cases (leb width by)) [
  | inl far ↦ rw far (new-IsWords)
  | inr near ↦ rw near (
      slide_bits-IsWords (by % word_bits) (slide_words (by / word_bits) seen)
        (slide_words-IsWords (by / word_bits) seen ok))
]

pub digit-none : (j : ℕ) → digit j no_words ≡ 0
unfolding digit word_at
digit-none j = ap (bit (j % word_bits)) (all_zero (j / word_bits)) ∙ bit-zero (j % word_bits)
  where
    all_zero : (i : ℕ) → word_at i no_words ≡ 0
    all_zero zero = refl
    all_zero (suc zero) = refl
    all_zero (suc (suc zero)) = refl
    all_zero (suc (suc (suc zero))) = refl
    all_zero (suc (suc (suc (suc i)))) = refl

-- Below the distance, nothing is set.
pub digit-slide_low :
    (by j : ℕ) (seen : List ℕ) → IsWords seen → j < width → j < by → digit j (slide by seen) ≡ 0
unfolding slide
digit-slide_low by j seen ok h low = elim (Bool-cases (leb width by)) [
  | inl far ↦ rw far (digit-none j)
  | inr near ↦ rw near (elim (Bool-cases (ltb j (by % word_bits))) [
    | inl first ↦
        digit-slide_bits_low (by % word_bits) j (slide_words (by / word_bits) seen)
          (slide_words-IsWords (by / word_bits) seen ok) (ltb→lt j (by % word_bits) first)
          (omega arith)
    | inr later ↦
        let past : by % word_bits ≤ j = ground arith in
        digit-slide_bits_high (by % word_bits) j (j - by % word_bits)
          (slide_words (by / word_bits) seen) (slide_words-IsWords (by / word_bits) seen ok)
          (omega arith) h (omega (arith, past))
        ∙ digit-slide_words_low (by / word_bits) (j - by % word_bits) seen (omega arith)
            (omega (arith, past))
  ])
]

-- From there on, every bit has moved up by it.
pub digit-slide_high :
    (by j k : ℕ) (seen : List ℕ)
    → IsWords seen
    → j < width
    → k + by ≡ j
    → digit j (slide by seen) ≡ digit k seen
unfolding slide
digit-slide_high by j k seen ok h e = elim (Bool-cases (leb width by)) [
  | inl far ↦ absurd (omega (arith, leb→le width by far))
  | inr near ↦ rw near (
      digit-slide_bits_high (by % word_bits) j (j - by % word_bits)
        (slide_words (by / word_bits) seen) (slide_words-IsWords (by / word_bits) seen ok)
        (omega arith) h (omega arith)
      ∙ digit-slide_words_high (by / word_bits) (j - by % word_bits) k seen (omega arith)
          (omega arith))
]
