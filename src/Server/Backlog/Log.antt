-- ===== src/Server/Backlog/Log.antt =====
-- crates/server/src/backlog.rs: the ring keeps the end of the log.
use braid.Prelude.{
  ℕ, zero, suc, ◌+◌, ◌-◌, ◌*◌, ◌%◌, ◌^◌, ◌≤◌, ◌<◌, min, ◌≡◌, refl, ap, ◌∙◌, ◌⊎◌, inl, inr, List, [],
  arith, ltb, leb, ltb→lt, Bool-cases, length, take, drop, length-take, length-drop, usize_max,
}
use braid.Server.Backlog.{
  BacklogRing, fresh, doubled, zeros, slice, copy_at, regrow, evict, around, append_at,
}
use braid.Server.Backlog.Slots.{
  get_elem?, get-drop, get-take, length-copy_at, copy_at-before, copy_at-inside, mod_wrap,
  length-around, around-inside, around-outside,
}
use native.Mathlib.Nat.{mod-lt, mul_assoc, one-le-pow, mod-eq_of_lt}

-- Slot `i` of the ring holds byte `base + i` of the log.
abbrev pub Keeps : List ℕ → ℕ → BacklogRing → Type 0
Keeps log base r =
    (i : ℕ) → i < r.len → get_elem? r.buf ((r.head + i) % length r.buf) ≡ get_elem? log (base + i)

-- `log` is all that was pushed: the ring holds the end of it, as much as it has the capacity for.
pub record Holds (log : List ℕ) (r : BacklogRing) : Type 0 where
  pub sized : r.len ≤ length r.buf
  pub within : length r.buf ≤ r.capacity
  pub turned : (r.head < length r.buf) ⊎ (r.head ≡ 0)
  pub ends : r.base + r.len ≡ length log
  pub full : 0 < r.base → r.len ≡ r.capacity
  pub keeps : Keeps log r.base r

pub fresh-Holds : (capacity : ℕ) → Holds [] (fresh capacity)
unfolding fresh
fresh-Holds capacity = record {
  sized = omega arith;
  within = omega arith;
  turned = inr refl;
  ends = omega arith;
  full = λ h. absurd (omega arith);
  keeps = λ i h. absurd (omega arith);
}

-- Where a reduced index stands.
abbrev pub At : ℕ → ℕ → ℕ → Type 0
At size a p = ((a < size) × (p ≡ a)) ⊎ ((size ≤ a) × (p ≡ a - size))

-- A slot that is kept stands outside what is copied.
away :
    (head len i size k tail p : ℕ)
    → i < len
    → head < size
    → len + k ≤ size
    → At size (head + len) tail
    → At size (head + i) p
    → (tail + k ≤ p) ⊎ (p < tail)
away head len i size k tail p lt inside fits (inl t) (inl q) = inr (omega arith)
away head len i size k tail p lt inside fits (inl t) (inr q) = absurd (omega arith)
away head len i size k tail p lt inside fits (inr t) (inl q) = inl (omega arith)
away head len i size k tail p lt inside fits (inr t) (inr q) = inr (omega arith)

-- A slot that is new stands where its byte is copied.
place :
    (head len i size tail p : ℕ)
    → len ≤ i
    → i < size
    → At size (head + len) tail
    → At size (head + i) p
    → (p ≡ tail + (i - len)) ⊎ (p + size ≡ tail + (i - len))
place head len i size tail p le lt (inl t) (inl q) = inl (omega arith)
place head len i size tail p le lt (inl t) (inr q) = inr (omega arith)
place head len i size tail p le lt (inr t) (inl q) = absurd (omega arith)
place head len i size tail p le lt (inr t) (inr q) = inl (omega arith)

-- Turning the ring by `a` and then stepping `i` is one step.
turn :
    (head a i size n p q : ℕ)
    → head < size
    → a + i < size
    → At size (head + a) n
    → At size (n + i) p
    → At size (head + (a + i)) q
    → p ≡ q
turn head a i size n p q h lt (inl x) (inl y) (inl z) = omega arith
turn head a i size n p q h lt (inl x) (inl y) (inr z) = absurd (omega arith)
turn head a i size n p q h lt (inl x) (inr y) (inl z) = absurd (omega arith)
turn head a i size n p q h lt (inl x) (inr y) (inr z) = omega arith
turn head a i size n p q h lt (inr x) (inl y) (inl z) = absurd (omega arith)
turn head a i size n p q h lt (inr x) (inl y) (inr z) = omega arith
turn head a i size n p q h lt (inr x) (inr y) z = absurd (omega arith)

-- Bytes are put behind those that are kept.
pub append_at-Keeps :
    (log : List ℕ) (base : ℕ) (r : BacklogRing) (bytes : List ℕ)
    → r.head < length r.buf
    → r.len + length bytes ≤ length r.buf
    → Keeps log base r
    → ((q : ℕ) → q < length bytes → get_elem? bytes q ≡ get_elem? log (base + r.len + q))
    → Keeps log base (append_at r bytes)
unfolding append_at
append_at-Keeps log base r bytes inside fits old new i h =
    let size = length r.buf in
    let tail = (r.head + r.len) % size in
    let p = (r.head + i) % size in
    let tail_in : tail < size = mod-lt (r.head + r.len) {m = size} (omega arith) in
    let p_in : p < size = mod-lt (r.head + i) {m = size} (omega arith) in
    let at_tail = mod_wrap (r.head + r.len) size (omega arith) in
    let at_p = mod_wrap (r.head + i) size (omega arith) in
    let same = length-around r.buf tail bytes tail_in (omega arith) in
    ap (λ n. get_elem? (around r.buf tail bytes) ((r.head + i) % n)) same
    ∙ elim (Bool-cases (ltb i r.len)) [
      | inl kept ↦
          let before : i < r.len = ltb→lt i r.len kept in
          around-outside r.buf tail bytes p tail_in (omega arith)
            (away r.head r.len i size (length bytes) tail p before inside fits at_tail at_p)
            (ground (arith, before, at_tail, at_p)) p_in
          ∙ old i before
      | inr added ↦
          let behind : r.len ≤ i = ground arith in
          around-inside r.buf tail bytes p (i - r.len) tail_in (omega arith) p_in (omega arith)
            (place r.head r.len i size tail p behind (omega arith) at_tail at_p)
          ∙ new (i - r.len) (omega arith)
          ∙ ap (get_elem? log) {x = base + r.len + (i - r.len)} {y = base + i} (omega arith)
    ]

-- Eviction moves the start of the ring along the log.
pub evict-Keeps :
    (log : List ℕ) (base overwrite : ℕ) (r : BacklogRing)
    → r.head < length r.buf
    → r.len ≤ length r.buf
    → overwrite ≤ r.len
    → Keeps log base r
    → Keeps log (base + overwrite) (evict r overwrite)
unfolding evict
evict-Keeps log base overwrite r inside sized few old = elim (Bool-cases (ltb 0 overwrite)) [
  | inl some_go ↦ rw some_go (λ i h.
      let size = length r.buf in
      let n = (r.head + overwrite) % size in
      let n_in : n < size = mod-lt (r.head + overwrite) {m = size} (omega arith) in
      ap (get_elem? r.buf) (
        turn r.head overwrite i size n ((n + i) % size) ((r.head + (overwrite + i)) % size) inside
          (omega arith) (mod_wrap (r.head + overwrite) size (omega arith))
          (mod_wrap (n + i) size (omega arith))
          (mod_wrap (r.head + (overwrite + i)) size (omega arith)))
      ∙ old (overwrite + i) (omega arith)
      ∙ ap (get_elem? log) {x = base + (overwrite + i)} {y = base + overwrite + i} (omega arith))
  | inr none_go ↦
      rw none_go (λ i h.
        old i h ∙ ap (get_elem? log) {x = base + i} {y = base + overwrite + i} (ground arith))
]

-- A slot behind the end of the buffer stands at its start.
wrapped :
    (head i size len p : ℕ)
    → head ≤ size
    → len ≤ size
    → i < len
    → min (size - head) len ≤ i
    → At size (head + i) p
    → i - min (size - head) len ≡ p
wrapped head i size len p le sized lt behind (inl t) = absurd (omega arith)
wrapped head i size len p le sized lt behind (inr t) = omega arith

length-zeros : (n : ℕ) → length (zeros n) ≡ n
unfolding zeros
length-zeros zero = refl
length-zeros (suc n) = ap suc (length-zeros n)

-- A ring copied into a longer buffer keeps every slot.
pub regrow-Keeps :
    (log : List ℕ) (base size : ℕ) (r : BacklogRing)
    → r.head ≤ length r.buf
    → r.len ≤ length r.buf
    → r.len ≤ size
    → Keeps log base r
    → Keeps log base (regrow r size) × (length (regrow r size).buf ≡ size)
unfolding regrow slice
regrow-Keeps log base size r inside sized room old =
    let first = min (length r.buf - r.head) r.len in
    let one = take first (drop r.head r.buf) in
    let two = take (r.len - first) r.buf in
    let one_size : length one ≡ first =
      omega (arith, length-take first (drop r.head r.buf), length-drop r.head r.buf) in
    let two_size : length two ≡ r.len - first = omega (arith, length-take (r.len - first) r.buf) in
    let grown = copy_at (zeros size) 0 one in
    let grown_size : length grown ≡ size =
      length-copy_at (zeros size) 0 one (omega (arith, length-zeros size, one_size))
      ∙ length-zeros size in
    let full_size : length (copy_at grown first two) ≡ size =
      length-copy_at grown first two (omega (arith, grown_size, two_size)) ∙ grown_size in
    (
      λ i h.
          ap (λ n. get_elem? (copy_at grown first two) ((0 + i) % n)) full_size
          ∙ ap (get_elem? (copy_at grown first two)) {x = (0 + i) % size} {y = i} (
              ap (λ k. k % size) {x = 0 + i} {y = i} (omega arith)
              ∙ mod-eq_of_lt {n = i} {m = size} (omega arith))
          ∙ elim (Bool-cases (ltb i first)) [
            | inl early ↦
                let lt : i < first = ltb→lt i first early in
                copy_at-before grown first two i (omega (arith, grown_size)) lt
                ∙ copy_at-inside (zeros size) 0 one i i (omega arith) (omega arith)
                    (omega (arith, one_size))
                ∙ get-take first i (drop r.head r.buf) lt
                ∙ get-drop r.head i ((r.head + i) % length r.buf) r.buf
                    (mod-eq_of_lt {n = r.head + i} {m = length r.buf} (omega arith))
                ∙ old i h
            | inr late ↦
                let le : first ≤ i = ground arith in
                copy_at-inside grown first two i (i - first) (omega (arith, grown_size))
                  (omega arith) (omega (arith, two_size))
                ∙ get-take (r.len - first) (i - first) r.buf (omega arith)
                ∙ ap (get_elem? r.buf) {x = i - first} {y = (r.head + i) % length r.buf} (
                    wrapped r.head i (length r.buf) r.len ((r.head + i) % length r.buf) inside sized
                      h le (mod_wrap (r.head + i) (length r.buf) (omega arith)))
                ∙ old i h
          ],
      full_size,
    )

reached :
    (rounds size needed : ℕ)
    → needed ≤ usize_max
    → needed ≤ size * 2 ^ suc rounds
    → needed ≤ min (size * 2) usize_max * 2 ^ rounds
reached rounds size needed top h =
    let two : 2 ^ suc rounds ≡ 2 * 2 ^ rounds = omega arith in
    let some_power : 1 ≤ 2 ^ rounds = one-le-pow rounds 2 (omega arith) in
    elim (Bool-cases (leb (size * 2) usize_max)) [
      | inl below ↦
          let exact : min (size * 2) usize_max ≡ size * 2 = ground arith in
          rw exact (omega (arith, h, ap (λ k. size * k) two, mul_assoc size 2 (2 ^ rounds)))
      | inr above ↦
          let exact : min (size * 2) usize_max ≡ usize_max = ground arith in
          rw exact (grind (arith, some_power))
    ]

-- The doubling reaches what is needed, in as many rounds as a word has bits.
pub doubled-enough :
    (rounds size needed : ℕ)
    → needed ≤ usize_max
    → needed ≤ size * 2 ^ rounds
    → needed ≤ doubled rounds size needed
unfolding doubled
doubled-enough zero size needed top h = omega arith
doubled-enough (suc rounds) size needed top h = elim (Bool-cases (ltb size needed)) [
  | inl small ↦ rw small (
      doubled-enough rounds (min (size * 2) usize_max) needed top
        (reached rounds size needed top h))
  | inr enough ↦ rw enough (ground arith)
]
