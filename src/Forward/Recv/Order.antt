-- ===== src/Forward/Recv/Order.antt =====
-- crates/forward/src/recv.rs: the map of held segments, as a map in order.
use braid.Prelude.{
  ℕ, suc, ◌+◌, ◌≤◌, ◌<◌, ◌≡◌, refl, inl, inr, Option, none, some, List, [], ◌∷◌, arith, ltb, ◌==◌,
  if◌then◌else◌, Bool-cases, length,
}
use braid.Forward.Recv.{Held, find, insert, pop_spare, or_spare}
use braid.Forward.Recv.Pieces.{Empties}

-- The offsets are at least `lo` and ascend.
abbrev pub From : ℕ → Held → Type 0
From lo [] = Unit {0}
From lo ((o, h) ∷ rest) = (lo ≤ o) × From (suc o) rest

abbrev pub total : Held → ℕ
total [] = 0
total ((o, h) ∷ rest) = length h + total rest

abbrev pub size : Option (List ℕ) → ℕ
size none = 0
size (some h) = length h

pub find-below : (off lo : ℕ) (held : Held) → off < lo → From lo held → find off held ≡ none
unfolding find
find-below off lo [] h v = refl
find-below off lo ((o, b) ∷ rest) h v =
    ground (arith, find-below off (suc o) rest (omega arith) v.1)

pub From-mono : (lo hi : ℕ) (held : Held) → lo ≤ hi → From hi held → From lo held
From-mono lo hi [] h v = tt
From-mono lo hi ((o, b) ∷ rest) h v = (omega arith, v.1)

pub insert-From :
    (off lo : ℕ) (b : List ℕ) (held : Held) → lo ≤ off → From lo held → From lo (insert off b held)
unfolding insert
insert-From off lo b [] h v = (h, tt)
insert-From off lo b ((o, c) ∷ rest) h v = elim (Bool-cases (ltb off o)) [
  | inl lt ↦ rw lt (h, (ground arith, v.1))
  | inr ge ↦ rw ge (elim (Bool-cases (off == o)) [
    | inl eq ↦ rw eq (h, From-mono (suc off) (suc o) rest (ground arith) v.1)
    | inr ne ↦ rw ne (v.0, insert-From off (suc o) b rest (ground arith) v.1)
  ])
]

pub length-insert :
    (off : ℕ) (b : List ℕ) (held : Held) → length (insert off b held) ≤ length held + 1
unfolding insert
length-insert off b [] = omega arith
length-insert off b ((o, c) ∷ rest) = ground (arith, length-insert off b rest)

-- On an ordered map, an insertion replaces the bytes that stood at its offset: the total moves by
-- exactly the difference.
pub total-insert :
    (off lo : ℕ) (b : List ℕ) (held : Held)
    → From lo held
    → total (insert off b held) + size (find off held) ≡ total held + length b
unfolding insert find
total-insert off lo b [] v = omega arith
total-insert off lo b ((o, c) ∷ rest) v =
    ground (arith, total-insert off (suc o) b rest v.1, find-below off (suc o) rest)

-- On an ordered map, what an insertion wrote is found under its offset, and every other offset
-- answers as before.
pub find-insert :
    (off k lo : ℕ) (b : List ℕ) (held : Held)
    → From lo held
    → find k (insert off b held) ≡ (if off == k then some b else find k held)
unfolding insert find
find-insert off k lo b [] v = refl
find-insert off k lo b ((o, c) ∷ rest) v = ground (arith, find-insert off k (suc o) b rest v.1)

pub size-or_spare :
    (found : Option (List ℕ)) (bs : List (List ℕ))
    → Empties bs
    → length (or_spare found bs).0 ≡ size found
unfolding or_spare pop_spare
size-or_spare none [] cl = refl
size-or_spare none (b ∷ bs) cl = cl.0
size-or_spare (some h) bs cl = refl

pub length-or_spare :
    (found : Option (List ℕ)) (bs : List (List ℕ)) → length (or_spare found bs).1 ≤ length bs
unfolding or_spare pop_spare
length-or_spare none [] = omega arith
length-or_spare none (b ∷ bs) = omega arith
length-or_spare (some h) bs = omega arith
