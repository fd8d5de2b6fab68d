-- ===== src/Dgram/Window/Refine.antt =====
-- The window is a set of the numbers accepted so far, told apart within its width and forgotten
-- past it.
use braid.Prelude.{
  ℕ, zero, suc, ◌-◌, ◌≤◌, ◌<◌, ◌≡◌, refl, sym, ap, ◌∙◌, ◌≢◌, ◌⊎◌, inl, inr, Bool, true, false, ◌||◌,
  List, [], ◌∷◌, arith, ltb, leb, ◌==◌, if◌then◌else◌, ltb→lt, Bool-cases,
}
use braid.Dgram.Window.{
  width, Admission, fresh, replay, too_old, ReplayWindow, set, get, slide, admit,
}
use braid.Dgram.Window.Digits.{
  digit, IsWords, get-digit, digit-set_same, digit-set_other, set-IsWords,
}
use braid.Dgram.Window.Slide.{slide-IsWords, digit-slide_low, digit-slide_high}

unfoldable pub mem : ℕ → List ℕ → Bool
mem n [] = false
mem n (m ∷ ms) = (n == m) || mem n ms

-- What was accepted, newest first.
unfoldable pub accept : List ℕ → ℕ → Admission → List ℕ
accept log n fresh = n ∷ log
accept log n replay = log
accept log n too_old = log

-- The answer of a set that remembers `width` numbers back from its top.
unfoldable pub verdict : ℕ → List ℕ → ℕ → Admission
verdict top log n =
    if ltb top n
    then fresh
    else if leb width (top - n)
    then too_old
    else if mem n log
    then replay
    else fresh

pub record Holds (w : ReplayWindow) (log : List ℕ) : Type 0 where
  pub shape : IsWords w.seen
  pub old : (n : ℕ) → mem n log ≡ true → n ≤ w.top
  pub told : (k : ℕ) → k < width → k ≤ w.top → (digit k w.seen == 1) ≡ mem (w.top - k) log
  pub clear : (k : ℕ) → k < width → w.top < k → digit k w.seen ≡ 0

pub newer : (w : ReplayWindow) (log : List ℕ) (n : ℕ) → Holds w log → w.top < n → mem n log ≡ false
newer w log n h lt = elim (Bool-cases (mem n log)) [
  | inl there ↦ absurd (omega (arith, h.old n there))
  | inr absent ↦ absent
]

is_one : (d : ℕ) → d ≡ 1 → (d == 1) ≡ true
is_one d h = ground arith

pub is_not_one : (d : ℕ) → d ≡ 0 → (d == 1) ≡ false
is_not_one d h = ground arith

mem-cons : (m n : ℕ) (log : List ℕ) → mem m (n ∷ log) ≡ true → (m ≡ n) ⊎ (mem m log ≡ true)
unfolding mem
mem-cons m n log h = elim (Bool-cases (m == n)) [
  | inl same ↦ inl (ground arith)
  | inr other ↦ inr (ground (arith, other, h))
]

mem-cons_same : (n : ℕ) (log : List ℕ) → mem n (n ∷ log) ≡ true
unfolding mem
mem-cons_same n log = ground arith

mem-cons_other : (m n : ℕ) (log : List ℕ) → m ≢ n → mem m (n ∷ log) ≡ mem m log
unfolding mem
mem-cons_other m n log h = ground arith

module _ (w : ReplayWindow) (log : List ℕ) (n : ℕ) (h : Holds w log) (lt : w.top < n) where
  slid : IsWords (slide (n - w.top) w.seen)
  slid = slide-IsWords (n - w.top) w.seen h.shape

  slid-told :
      (k : ℕ)
      → k < width
      → k ≤ n
      → 0 < k
      → (digit k (slide (n - w.top) w.seen) == 1) ≡ mem (n - k) log
  slid-told k small le pos = elim (Bool-cases (ltb k (n - w.top))) [
    | inl near ↦
        is_not_one (digit k (slide (n - w.top) w.seen))
          (digit-slide_low (n - w.top) k w.seen h.shape small (ltb→lt k (n - w.top) near))
        ∙ sym (newer w log (n - k) h (omega (arith, ltb→lt k (n - w.top) near)))
    | inr far ↦
        let reach : n - w.top ≤ k = ground arith in
        ap (λ d. d == 1)
          (digit-slide_high (n - w.top) k (k - (n - w.top)) w.seen h.shape small
            (omega (arith, reach)))
        ∙ h.told (k - (n - w.top)) (omega arith) (omega (arith, reach))
        ∙ ap (λ m. mem m log) {x = w.top - (k - (n - w.top))} {y = n - k} (omega (arith, reach))
  ]

  slid_set-told :
      (k : ℕ)
      → k < width
      → k ≤ n
      → (digit k (set 0 (slide (n - w.top) w.seen)) == 1) ≡ mem (n - k) (n ∷ log)
  slid_set-told zero small le =
      is_one (digit 0 (set 0 (slide (n - w.top) w.seen)))
        (digit-set_same 0 (slide (n - w.top) w.seen) (omega arith) slid.four)
      ∙ sym (mem-cons_same n log)
      ∙ ap (λ m. mem m (n ∷ log)) {x = n} {y = n - 0} (omega arith)
  slid_set-told (suc k) small le =
      ap (λ d. d == 1)
        (digit-set_other (suc k) 0 (slide (n - w.top) w.seen) (λ e. omega arith) (omega arith)
          slid.four)
      ∙ slid-told (suc k) small le (omega arith)
      ∙ sym (mem-cons_other (n - suc k) n log (λ e. omega arith))

  -- A number past the top.
  slid-Holds : Holds (record { top = n; seen = set 0 (slide (n - w.top) w.seen) }) (n ∷ log)
  slid-Holds = record {
    shape = set-IsWords 0 (slide (n - w.top) w.seen) slid;
    old = λ m there. elim (mem-cons m n log there) [
      | inl same ↦ omega arith
      | inr before ↦ omega (arith, h.old m before)
    ];
    told = slid_set-told;
    clear = λ k small past.
        digit-set_other k 0 (slide (n - w.top) w.seen) (λ e. omega arith) (omega arith) slid.four
        ∙ digit-slide_high (n - w.top) k (k - (n - w.top)) w.seen h.shape small (omega arith)
        ∙ h.clear (k - (n - w.top)) (omega arith) (omega arith);
  }

module _ (w : ReplayWindow) (log : List ℕ) (n : ℕ) (h : Holds w log) (le : n ≤ w.top) where
  set-told :
      (k : ℕ)
      → w.top - n < width
      → k < width
      → k ≤ w.top
      → (digit k (set (w.top - n) w.seen) == 1) ≡ mem (w.top - k) (n ∷ log)
  set-told k near small in_top = elim (Bool-cases (k == w.top - n)) [
    | inl same ↦
        let e : k ≡ w.top - n = ground arith in
        ap (λ i. digit i (set (w.top - n) w.seen) == 1) e
        ∙ is_one (digit (w.top - n) (set (w.top - n) w.seen))
            (digit-set_same (w.top - n) w.seen near h.shape.four)
        ∙ sym (mem-cons_same n log)
        ∙ ap (λ m. mem m (n ∷ log)) {x = n} {y = w.top - k} (omega arith)
    | inr other ↦
        let apart : k ≢ w.top - n = λ e. ground arith in
        ap (λ d. d == 1) (digit-set_other k (w.top - n) w.seen apart near h.shape.four)
        ∙ h.told k small in_top
        ∙ sym (mem-cons_other (w.top - k) n log (λ e. apart (omega arith)))
  ]

  -- A number of the window that was not there yet.
  set-Holds : w.top - n < width → Holds (record w { seen = set (w.top - n) w.seen }) (n ∷ log)
  set-Holds near = record {
    shape = set-IsWords (w.top - n) w.seen h.shape;
    old = λ m there. elim (mem-cons m n log there) [
      | inl same ↦ omega arith
      | inr before ↦ h.old m before
    ];
    told = λ k small in_top. set-told k near small in_top;
    clear = λ k small past.
        digit-set_other k (w.top - n) w.seen (λ e. omega arith) near h.shape.four
        ∙ h.clear k small past;
  }

  got : w.top - n < width → get (w.top - n) w.seen ≡ mem n log
  got near =
      get-digit (w.top - n) w.seen
      ∙ h.told (w.top - n) near (omega arith)
      ∙ ap (λ m. mem m log) {x = w.top - (w.top - n)} {y = n} (omega arith)

-- The window answers as the set of all numbers accepted so far would, and goes on holding it: fresh
-- for a number past the top, too old for one 256 or more behind it, and in between fresh exactly
-- when it was never accepted; for a window that holds what was accepted.
pub admit-Holds :
    (w : ReplayWindow) (log : List ℕ) (n : ℕ)
    → Holds w log
    → ((admit w n).1 ≡ verdict w.top log n)
      × Holds (admit w n).0 (accept log n (verdict w.top log n))
unfolding admit verdict accept
admit-Holds w log n h = elim (Bool-cases (ltb w.top n)) [
  | inl past ↦ rw past (refl, slid-Holds w log n h (ltb→lt w.top n past))
  | inr within ↦ rw within (elim (Bool-cases (leb width (w.top - n))) [
    | inl far ↦ rw far (refl, h)
    | inr near ↦
        let le : n ≤ w.top = ground arith in
        let close : w.top - n < width = ground arith in
        rw (near, got w log n h le close)
          (elim (Bool-cases (mem n log)) [
            | inl there ↦ rw there (refl, h)
            | inr absent ↦ rw absent (refl, set-Holds w log n h le close)
          ])
  ])
]
