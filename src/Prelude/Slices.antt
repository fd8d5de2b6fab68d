-- ===== src/Prelude/Slices.antt =====
-- How `take` and `drop` meet `++` and each other.
use braid.Prelude.Lists.{length, take, drop}
use Prim.Native.Nat.{ℕ, zero, suc, ◌+◌, ◌-◌, ◌≤◌, min}
use mathlib.Core.Path.{◌≡◌, refl, sym, ap, ◌∙◌}
use mathlib.Core.List.{List, [], ◌∷◌, ◌++◌}
use native.Mathlib.Omega.{arith}

module _ {ℓ} {A : Type ℓ} where
  pub take-all : (n : ℕ) (xs : List A) → length xs ≤ n → take n xs ≡ xs
  take-all zero [] h = refl
  take-all (suc n) [] h = refl
  take-all zero (x ∷ xs) h = absurd (omega arith)
  take-all (suc n) (x ∷ xs) h = ap (◌∷◌ x) (take-all n xs (omega arith))

  pub drop-all : (n : ℕ) (xs : List A) → length xs ≤ n → drop n xs ≡ []
  drop-all zero [] h = refl
  drop-all (suc n) [] h = refl
  drop-all zero (x ∷ xs) h = absurd (omega arith)
  drop-all (suc n) (x ∷ xs) h = drop-all n xs (omega arith)

  pub take-append_le : (n : ℕ) (xs ys : List A) → n ≤ length xs → take n (xs ++ ys) ≡ take n xs
  take-append_le zero xs ys h = refl
  take-append_le (suc n) [] ys h = absurd (omega arith)
  take-append_le (suc n) (x ∷ xs) ys h = ap (◌∷◌ x) (take-append_le n xs ys (omega arith))

  pub drop-append_le :
      (n : ℕ) (xs ys : List A) → n ≤ length xs → drop n (xs ++ ys) ≡ drop n xs ++ ys
  drop-append_le zero xs ys h = refl
  drop-append_le (suc n) [] ys h = absurd (omega arith)
  drop-append_le (suc n) (x ∷ xs) ys h = drop-append_le n xs ys (omega arith)

  -- Two neighbouring slices are one; the second bound is a variable with an equation.
  pub take-add : (a b c : ℕ) (xs : List A) → a + b ≡ c → take a xs ++ take b (drop a xs) ≡ take c xs
  take-add zero b c xs e = ap (λ k. take k xs) (omega arith)
  take-add (suc a) zero zero [] e = refl
  take-add (suc a) (suc b) zero [] e = absurd (omega arith)
  take-add (suc a) zero (suc c) [] e = refl
  take-add (suc a) (suc b) (suc c) [] e = refl
  take-add (suc a) b zero (x ∷ xs) e = absurd (omega arith)
  take-add (suc a) b (suc c) (x ∷ xs) e = ap (◌∷◌ x) (take-add a b c xs (omega arith))

  pub drop-drop : (a b c : ℕ) (xs : List A) → a + b ≡ c → drop b (drop a xs) ≡ drop c xs
  drop-drop zero b c xs e = ap (λ k. drop k xs) (omega arith)
  drop-drop (suc a) zero zero xs e = absurd (omega arith)
  drop-drop (suc a) (suc b) zero xs e = absurd (omega arith)
  drop-drop (suc a) zero (suc c) [] e = refl
  drop-drop (suc a) (suc b) (suc c) [] e = refl
  drop-drop (suc a) b (suc c) (x ∷ xs) e = drop-drop a b c xs (omega arith)

  pub take-nil : (n : ℕ) → take {A = A} n [] ≡ []
  take-nil zero = refl
  take-nil (suc n) = refl

  pub drop-nil : (n : ℕ) → drop {A = A} n [] ≡ []
  drop-nil zero = refl
  drop-nil (suc n) = refl

  -- Skipping inside a slice is the later, shorter slice.
  pub drop-take : (k n : ℕ) (xs : List A) → drop k (take n xs) ≡ take (n - k) (drop k xs)
  drop-take zero n xs = ap (λ m. take m xs) (omega arith)
  drop-take (suc k) zero xs = ap (λ m. take m (drop (suc k) xs)) {x = 0} (omega arith)
  drop-take (suc k) (suc n) [] = sym (take-nil (suc n - suc k))
  drop-take (suc k) (suc n) (x ∷ xs) =
      drop-take k n xs ∙ ap (λ m. take m (drop k xs)) {x = n - k} (omega arith)

  -- Taking may ask for more than there is; what is left stands behind what was there.
  pub take-append-drop-min : (n : ℕ) (xs : List A) → take n xs ++ drop (min n (length xs)) xs ≡ xs
  take-append-drop-min zero xs = ap (λ k. drop k xs) {x = min 0 (length xs)} {y = 0} (omega arith)
  take-append-drop-min (suc n) [] =
      ap (λ k. drop {A = A} k []) {x = min (suc n) 0} {y = 0} (omega arith)
  take-append-drop-min (suc n) (x ∷ xs) =
      ap (λ k. (x ∷ take n xs) ++ drop k (x ∷ xs)) {x = min (suc n) (suc (length xs))}
        {y = suc (min n (length xs))} (omega arith)
      ∙ ap (◌∷◌ x) (take-append-drop-min n xs)

  pub take-take : (m n : ℕ) (xs : List A) → take m (take n xs) ≡ take (min m n) xs
  take-take zero n xs = ap (λ k. take k xs) {x = 0} {y = min 0 n} (omega arith)
  take-take (suc m) zero xs = ap (λ k. take k xs) {x = 0} {y = min (suc m) 0} (omega arith)
  take-take (suc m) (suc n) [] = sym (take-nil (min (suc m) (suc n)))
  take-take (suc m) (suc n) (x ∷ xs) =
      ap (◌∷◌ x) (take-take m n xs)
      ∙ ap (λ k. take k (x ∷ xs)) {x = suc (min m n)} {y = min (suc m) (suc n)} (omega arith)

  pub drop-min : (n : ℕ) (xs : List A) → drop n xs ≡ drop (min n (length xs)) xs
  drop-min zero xs = ap (λ k. drop k xs) {x = 0} {y = min 0 (length xs)} (omega arith)
  drop-min (suc n) [] = sym (drop-nil (min (suc n) 0))
  drop-min (suc n) (x ∷ xs) =
      drop-min n xs
      ∙ ap (λ k. drop k (x ∷ xs)) {x = suc (min n (length xs))} {y = min (suc n) (suc (length xs))}
          (omega arith)

  pub take-append : (n : ℕ) (s rest : List A) → length s ≡ n → take n (s ++ rest) ≡ s
  take-append zero [] rest h = refl
  take-append zero (b ∷ s) rest h = absurd (omega arith)
  take-append (suc n) [] rest h = absurd (omega arith)
  take-append (suc n) (b ∷ s) rest h = ap (◌∷◌ b) (take-append n s rest (omega arith))

  pub drop-append : (n : ℕ) (s rest : List A) → length s ≡ n → drop n (s ++ rest) ≡ rest
  drop-append zero [] rest h = refl
  drop-append zero (b ∷ s) rest h = absurd (omega arith)
  drop-append (suc n) [] rest h = absurd (omega arith)
  drop-append (suc n) (b ∷ s) rest h = drop-append n s rest (omega arith)
