-- ===== src/Forward/Recv/Pieces.antt =====
-- crates/forward/src/recv.rs: segments held past a gap are pieces of the peer's stream, and spare buffers are empty.
use braid.Prelude.{
  ℕ, ◌+◌, ◌<◌, ◌≡◌, refl, ◌≢◌, inl, inr, false, Option, none, some, List, [], ◌∷◌, arith, ltb, ◌==◌,
  Bool-cases, length, u64_max, saturating_add,
}
use braid.Forward.Piece.{IsPiece}
use braid.Forward.Recv.{
  Held, Receiver, find, insert, held_past, pop_spare, or_spare, entry, store, refuses,
}

abbrev pub Empties : List (List ℕ) → Type 0
Empties [] = Unit {0}
Empties (b ∷ bs) = (length b ≡ 0) × Empties bs

pub or_spare-Empties :
    (found : Option (List ℕ)) (bs : List (List ℕ)) → Empties bs → Empties (or_spare found bs).1
unfolding or_spare pop_spare
or_spare-Empties none [] cl = tt
or_spare-Empties none (b ∷ bs) cl = cl.1
or_spare-Empties (some h) bs cl = cl

-- What stands in an entry that is not empty was in the map.
pub or_spare-found :
    (found : Option (List ℕ)) (bs : List (List ℕ))
    → Empties bs
    → length (or_spare found bs).0 ≢ 0
    → found ≡ some (or_spare found bs).0
unfolding or_spare pop_spare
or_spare-found none [] cl ne = absurd (ne refl)
or_spare-found none (b ∷ bs) cl ne = absurd (ne cl.0)
or_spare-found (some h) bs cl ne = refl

pub refuses-ne :
    (r : Receiver) (off : ℕ) (bytes : List ℕ) → refuses r off bytes ≡ false → length bytes ≢ 0
unfolding refuses
refuses-ne r off bytes h = ground arith

pub store_same :
    (r : Receiver) (off : ℕ) (bytes : List ℕ)
    → ((store r off bytes).next ≡ r.next)
      × ((store r off bytes).ready ≡ r.ready)
      × ((store r off bytes).fin ≡ r.fin)
      × ((store r off bytes).finished ≡ r.finished)
unfolding store
store_same r off bytes = ground arith

-- `log` is what the peer writes in all.
module _ (log : List ℕ) where
  abbrev pub Parts : Held → Type 0
  Parts [] = Unit {0}
  Parts ((off, h) ∷ rest) = IsPiece log off h × Parts rest

  pub saturating_add-piece :
      (off : ℕ) (bytes : List ℕ)
      → IsPiece log off bytes
      → length log < u64_max
      → saturating_add off (length bytes) ≡ off + length bytes
  saturating_add-piece off bytes p short = omega (arith, p.inside)

  pub held_past-Parts : (held : Held) → Parts held → held_past held (length log) ≡ false
  unfolding held_past
  held_past-Parts [] ps = refl
  held_past-Parts ((off, h) ∷ rest) ps = ground (arith, ps.0.inside, held_past-Parts rest ps.1)

  pub insert-Parts :
      (off : ℕ) (b : List ℕ) (held : Held)
      → IsPiece log off b
      → Parts held
      → Parts (insert off b held)
  unfolding insert
  insert-Parts off b [] p ps = (p, tt)
  insert-Parts off b ((o, h) ∷ rest) p ps = elim (Bool-cases (ltb off o)) [
    | inl lt ↦ rw lt (p, ps)
    | inr ge ↦ rw ge (elim (Bool-cases (off == o)) [
      | inl eq ↦ rw eq (p, ps.1)
      | inr ne ↦ rw ne (ps.0, insert-Parts off b rest p ps.1)
    ])
  ]

  pub find-Parts :
      (off : ℕ) (held : Held) {h : List ℕ} → Parts held → find off held ≡ some h → IsPiece log off h
  unfolding find
  find-Parts off [] ps e = cc
  find-Parts off ((o, b) ∷ rest) ps e = elim (Bool-cases (o == off)) [
    | inl eq ↦ ground (arith, ps.0)
    | inr ne ↦ find-Parts off rest ps.1 (ground arith)
  ]

  pub store-held :
      (r : Receiver) (off : ℕ) (bytes : List ℕ)
      → length bytes ≢ 0
      → Empties r.spare
      → Parts r.held
      → IsPiece log off bytes
      → Parts (store r off bytes).held × Empties (store r off bytes).spare
  unfolding store entry
  store-held r off bytes ne cl ps p =
      elim (Bool-cases (ltb (length (entry r off).0) (length bytes))) [
        | inl longer ↦
            rw longer
              (insert-Parts off bytes r.held p ps, or_spare-Empties (find off r.held) r.spare cl)
        | inr kept ↦ rw kept (
          insert-Parts off (entry r off).0 r.held
              (find-Parts off r.held ps
                (or_spare-found (find off r.held) r.spare cl (ground arith)))
              ps,
          or_spare-Empties (find off r.held) r.spare cl,
        )
      ]
