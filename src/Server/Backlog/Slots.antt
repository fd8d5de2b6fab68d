-- ===== src/Server/Backlog/Slots.antt =====
-- crates/server/src/backlog.rs: buffers slot by slot.
use braid.Prelude.{
  ℕ, zero, suc, ◌+◌, ◌-◌, ◌%◌, ◌≤◌, ◌<◌, min, ◌≡◌, refl, ap, ◌∙◌, ◌⊎◌, inl, inr, Option, none, some,
  List, [], ◌∷◌, ◌++◌, arith, ltb, ltb→lt, Bool-cases, length, take, drop, length-append,
  length-take, length-drop,
}
use braid.Server.Backlog.{copy_at, around}
use native.Mathlib.Nat.{mod-eq_of_lt, mod-eq-sub-mod}

abbrev pub get_elem? : List ℕ → ℕ → Option ℕ
get_elem? [] i = none
get_elem? (x ∷ xs) zero = some x
get_elem? (x ∷ xs) (suc i) = get_elem? xs i

pub get-append_left :
    (xs ys : List ℕ) (i : ℕ) → i < length xs → get_elem? (xs ++ ys) i ≡ get_elem? xs i
get-append_left [] ys i h = absurd (omega arith)
get-append_left (x ∷ xs) ys zero h = refl
get-append_left (x ∷ xs) ys (suc i) h = get-append_left xs ys i (omega arith)

-- The index behind the first list is a variable with an equation.
pub get-append_right :
    (xs ys : List ℕ) (i j : ℕ) → i ≡ length xs + j → get_elem? (xs ++ ys) i ≡ get_elem? ys j
get-append_right [] ys i j e = ap (get_elem? ys) {x = i} {y = j} (omega arith)
get-append_right (x ∷ xs) ys zero j e = absurd (omega arith)
get-append_right (x ∷ xs) ys (suc i) j e = get-append_right xs ys i j (omega arith)

pub get-drop : (n i j : ℕ) (xs : List ℕ) → j ≡ n + i → get_elem? (drop n xs) i ≡ get_elem? xs j
get-drop zero i j xs e = ap (get_elem? xs) {x = i} {y = j} (omega arith)
get-drop (suc n) i j [] e = refl
get-drop (suc n) i zero (x ∷ xs) e = absurd (omega arith)
get-drop (suc n) i (suc j) (x ∷ xs) e = get-drop n i j xs (omega arith)

pub get-take : (n i : ℕ) (xs : List ℕ) → i < n → get_elem? (take n xs) i ≡ get_elem? xs i
get-take zero i xs h = absurd (omega arith)
get-take (suc n) i [] h = refl
get-take (suc n) zero (x ∷ xs) h = refl
get-take (suc n) (suc i) (x ∷ xs) h = get-take n i xs (omega arith)

pub length-copy_at :
    (buf : List ℕ) (start : ℕ) (bs : List ℕ)
    → start + length bs ≤ length buf
    → length (copy_at buf start bs) ≡ length buf
unfolding copy_at
length-copy_at buf start bs h = omega (
  arith,
  length-append (take start buf ++ bs) (drop (start + length bs) buf),
  length-append (take start buf) bs,
  length-take start buf,
  length-drop (start + length bs) buf,
)

-- Before, inside and behind what was copied.
pub copy_at-before :
    (buf : List ℕ) (start : ℕ) (bs : List ℕ) (i : ℕ)
    → start ≤ length buf
    → i < start
    → get_elem? (copy_at buf start bs) i ≡ get_elem? buf i
unfolding copy_at
copy_at-before buf start bs i h lt =
    let taken = length-take start buf in
    get-append_left (take start buf ++ bs) (drop (start + length bs) buf) i
      (omega (arith, taken, length-append (take start buf) bs))
    ∙ get-append_left (take start buf) bs i (omega (arith, taken))
    ∙ get-take start i buf lt

pub copy_at-inside :
    (buf : List ℕ) (start : ℕ) (bs : List ℕ) (i j : ℕ)
    → start ≤ length buf
    → i ≡ start + j
    → j < length bs
    → get_elem? (copy_at buf start bs) i ≡ get_elem? bs j
unfolding copy_at
copy_at-inside buf start bs i j h e lt =
    let taken = length-take start buf in
    get-append_left (take start buf ++ bs) (drop (start + length bs) buf) i
      (omega (arith, taken, length-append (take start buf) bs))
    ∙ get-append_right (take start buf) bs i j (omega (arith, taken))

pub copy_at-behind :
    (buf : List ℕ) (start : ℕ) (bs : List ℕ) (i : ℕ)
    → start ≤ length buf
    → start + length bs ≤ i
    → get_elem? (copy_at buf start bs) i ≡ get_elem? buf i
unfolding copy_at
copy_at-behind buf start bs i h le =
    let taken = length-take start buf in
    get-append_right (take start buf ++ bs) (drop (start + length bs) buf) i
      (i - (start + length bs)) (omega (arith, taken, length-append (take start buf) bs))
    ∙ get-drop (start + length bs) (i - (start + length bs)) i buf (omega arith)

-- A place in the ring, at most once around.
pub mod_wrap : (a n : ℕ) → a < n + n → ((a < n) × (a % n ≡ a)) ⊎ ((n ≤ a) × (a % n ≡ a - n))
mod_wrap a n h = elim (Bool-cases (ltb a n)) [
  | inl less ↦ inl (ltb→lt a n less, mod-eq_of_lt {n = a} {m = n} (ltb→lt a n less))
  | inr more ↦ inr (
    ground arith,
    mod-eq-sub-mod {n = a} {m = n} (ground arith) ∙ mod-eq_of_lt {n = a - n} {m = n} (ground arith),
  )
]

pub length-around :
    (buf : List ℕ) (tail : ℕ) (bytes : List ℕ)
    → tail < length buf
    → length bytes ≤ length buf
    → length (around buf tail bytes) ≡ length buf
unfolding around
length-around buf tail bytes inside fits =
    let first = min (length bytes) (length buf - tail) in
    let one = length-copy_at buf tail (take first bytes) (omega (arith, length-take first bytes)) in
    elim (Bool-cases (ltb first (length bytes))) [
      | inl wraps ↦ rw wraps (
          length-copy_at (copy_at buf tail (take first bytes)) 0 (drop first bytes)
            (omega (arith, one, length-drop first bytes))
          ∙ one)
      | inr straight ↦ rw straight one
    ]

-- What stands where byte `q` was copied to.
pub around-inside :
    (buf : List ℕ) (tail : ℕ) (bytes : List ℕ) (p q : ℕ)
    → tail < length buf
    → length bytes ≤ length buf
    → p < length buf
    → q < length bytes
    → (p ≡ tail + q) ⊎ (p + length buf ≡ tail + q)
    → get_elem? (around buf tail bytes) p ≡ get_elem? bytes q
unfolding around
around-inside buf tail bytes p q inside fits within copied place =
    let first = min (length bytes) (length buf - tail) in
    let front = length-take first bytes in
    let one = length-copy_at buf tail (take first bytes) (omega (arith, front)) in
    elim (Bool-cases (ltb first (length bytes))) [
      | inr straight ↦
          let all : first ≡ length bytes = ground arith in
          rw straight (
            copy_at-inside buf tail (take first bytes) p q (omega arith) (omega arith)
              (omega (arith, front))
            ∙ get-take first q bytes (omega arith))
      | inl wraps ↦
          let some_wrap : first < length bytes = ltb→lt first (length bytes) wraps in
          rw wraps (elim place [
            | inl behind ↦
                copy_at-behind (copy_at buf tail (take first bytes)) 0 (drop first bytes) p
                  (omega arith) (omega (arith, length-drop first bytes))
                ∙ copy_at-inside buf tail (take first bytes) p q (omega arith) behind
                    (omega (arith, front))
                ∙ get-take first q bytes (omega arith)
            | inr before ↦
                copy_at-inside (copy_at buf tail (take first bytes)) 0 (drop first bytes) p p
                  (omega arith) (omega arith) (omega (arith, length-drop first bytes))
                ∙ get-drop first p q bytes (omega arith)
          ])
    ]

-- Nothing else has moved.
pub around-outside :
    (buf : List ℕ) (tail : ℕ) (bytes : List ℕ) (p : ℕ)
    → tail < length buf
    → length bytes ≤ length buf
    → (tail + length bytes ≤ p) ⊎ (p < tail)
    → tail + length bytes ≤ p + length buf
    → p < length buf
    → get_elem? (around buf tail bytes) p ≡ get_elem? buf p
unfolding around
around-outside buf tail bytes p inside fits away clear within =
    let first = min (length bytes) (length buf - tail) in
    let front = length-take first bytes in
    let one = length-copy_at buf tail (take first bytes) (omega (arith, front)) in
    let kept : get_elem? (copy_at buf tail (take first bytes)) p ≡ get_elem? buf p = elim away [
      | inl behind ↦
          copy_at-behind buf tail (take first bytes) p (omega arith) (omega (arith, front))
      | inr before ↦ copy_at-before buf tail (take first bytes) p (omega arith) before
    ] in
    elim (Bool-cases (ltb first (length bytes))) [
      | inr straight ↦ rw straight kept
      | inl wraps ↦
          let some_wrap : first < length bytes = ltb→lt first (length bytes) wraps in
          rw wraps (
            copy_at-behind (copy_at buf tail (take first bytes)) 0 (drop first bytes) p
              (omega arith) (omega (arith, length-drop first bytes, away))
            ∙ kept)
    ]
