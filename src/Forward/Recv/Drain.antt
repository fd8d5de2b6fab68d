-- ===== src/Forward/Recv/Drain.antt =====
-- crates/forward/src/recv.rs: the bytes placed for the socket stay the front of the peer's stream.
use braid.Prelude.{
  ℕ, ◌+◌, ◌-◌, ◌≤◌, ◌<◌, ◌≡◌, refl, ◌∙◌, inl, inr, false, List, [], ◌∷◌, ◌++◌, arith, ltb,
  Bool-cases, length, drop, u64_max,
}
use braid.Forward.Piece.{IsPiece, IsFront, IsFront-extend}
use braid.Forward.Recv.{
  Held, Receiver, admits, store, refuses, hold, recycle, place, drain, drain_held, place_fresh,
  accept,
}
use braid.Forward.Recv.Pieces.{Empties, refuses-ne, store_same, Parts, store-held}

module _ (log : List ℕ) (short : length log < u64_max) (capacity : Receiver → List ℕ → ℕ) where
  recycle_same :
      (r : Receiver) (b : List ℕ)
      → ((recycle capacity r b).next ≡ r.next)
        × ((recycle capacity r b).ready ≡ r.ready)
        × ((recycle capacity r b).fin ≡ r.fin)
        × ((recycle capacity r b).finished ≡ r.finished)
  unfolding recycle
  recycle_same r b = ground arith

  recycle-Empties :
      (r : Receiver) (b : List ℕ) → Empties r.spare → Empties (recycle capacity r b).spare
  unfolding recycle
  recycle-Empties r b cl = ground arith

  -- What one round of the loop leaves alone.
  place_same :
      (r : Receiver) (off : ℕ) (h : List ℕ)
      → ((place capacity r off h).fin ≡ r.fin) × ((place capacity r off h).finished ≡ r.finished)
  unfolding place recycle
  place_same r off h = ground arith

  place-Empties :
      (r : Receiver) (off : ℕ) (h : List ℕ)
      → Empties r.spare
      → Empties (place capacity r off h).spare
  unfolding place recycle
  place-Empties r off h cl = ground arith

  place-IsFront :
      (taken : List ℕ) (r : Receiver) (off : ℕ) (h : List ℕ)
      → IsFront log taken r.next r.ready
      → IsPiece log off h
      → off ≤ r.next
      → IsFront log taken (place capacity r off h).next (place capacity r off h).ready
  unfolding place recycle
  place-IsFront taken r off h f p le = ground (arith, IsFront-extend r.next off f p le)

  -- The state of the loop: an open receiver with `rest` still to place.
  pub record Placing (taken : List ℕ) (rest : Held) (r : Receiver) : Type 0 where
    pub front : IsFront log taken r.next r.ready
    pub parts : Parts log rest
    pub clean : Empties r.spare

  pub record Placed (taken : List ℕ) (r r' : Receiver) : Type 0 where
    pub front : IsFront log taken r'.next r'.ready
    pub parts : Parts log r'.held
    pub clean : Empties r'.spare
    pub fin_same : r'.fin ≡ r.fin
    pub finished_same : r'.finished ≡ r.finished

  drain-Placed :
      (taken : List ℕ) (rest : Held) (r : Receiver)
      → Placing taken rest r
      → Placed taken r (drain capacity rest r)
  unfolding drain
  drain-Placed taken [] r v = record {
    front = v.front;
    parts = tt;
    clean = v.clean;
    fin_same = refl;
    finished_same = refl;
  }
  drain-Placed taken ((off, h) ∷ rest) r v = elim (Bool-cases (ltb r.next off)) [
    | inl gap ↦ rw gap (record {
      front = v.front;
      parts = v.parts;
      clean = v.clean;
      fin_same = refl;
      finished_same = refl;
    })
    | inr near ↦ rw near (
        after (
          drain-Placed taken rest (place capacity r off h) (record {
            front = place-IsFront taken r off h v.front v.parts.0 (ground arith);
            parts = v.parts.1;
            clean = place-Empties r off h v.clean;
          })))
  ]
    where
      after : {r' : Receiver} → Placed taken (place capacity r off h) r' → Placed taken r r'
      after q = record {
        front = q.front;
        parts = q.parts;
        clean = q.clean;
        fin_same = q.fin_same ∙ (place_same r off h).0;
        finished_same = q.finished_same ∙ (place_same r off h).1;
      }

  place_fresh-Placed :
      (taken : List ℕ) (r : Receiver) (off : ℕ) (bytes : List ℕ)
      → Placing taken r.held r
      → IsPiece log off bytes
      → off ≤ r.next
      → r.next ≤ off + length bytes
      → Placed taken r (place_fresh capacity r (drop (r.next - off) bytes) (off + length bytes))
  unfolding place_fresh drain_held
  place_fresh-Placed taken r off bytes v p le lt =
      elim (Bool-cases (admits r (length (drop (r.next - off) bytes)))) [
        | inl room ↦ rw room (
            after (
              drain-Placed taken r.held next_r (record {
                front = IsFront-extend r.next off v.front p le lt;
                parts = v.parts;
                clean = v.clean;
              })))
        | inr full ↦ rw full (record {
          front = v.front;
          parts = v.parts;
          clean = v.clean;
          fin_same = refl;
          finished_same = refl;
        })
      ]
    where
      next_r : Receiver
      next_r = record r { ready = r.ready ++ drop (r.next - off) bytes; next = off + length bytes }

      after : {r' : Receiver} → Placed taken next_r r' → Placed taken r r'
      after q = record {
        front = q.front;
        parts = q.parts;
        clean = q.clean;
        fin_same = q.fin_same;
        finished_same = q.finished_same;
      }

  hold-Placed :
      (taken : List ℕ) (r : Receiver) (off : ℕ) (bytes : List ℕ)
      → Placing taken r.held r
      → IsPiece log off bytes
      → Placed taken r (hold r off bytes)
  unfolding hold
  hold-Placed taken r off bytes v p = elim (Bool-cases (refuses r off bytes)) [
    | inl refused ↦ rw refused (record {
      front = v.front;
      parts = v.parts;
      clean = v.clean;
      fin_same = refl;
      finished_same = refl;
    })
    | inr kept ↦ rw kept (stored kept)
  ]
    where
      stored : refuses r off bytes ≡ false → Placed taken r (store r off bytes)
      stored kept =
          let (parts', clean') =
            store-held log r off bytes (refuses-ne r off bytes kept) v.clean v.parts p in
          let (n, q, f, d) = store_same r off bytes in
          record {
            front = record { inside = rw n v.front.inside; same = rw (n, q) v.front.same };
            parts = parts';
            clean = clean';
            fin_same = f;
            finished_same = d;
          }

  pub accept-Placed :
      (taken : List ℕ) (r : Receiver) (off : ℕ) (bytes : List ℕ)
      → Placing taken r.held r
      → IsPiece log off bytes
      → Placed taken r (accept capacity r off bytes (off + length bytes))
  unfolding accept
  accept-Placed taken r off bytes v p = elim (Bool-cases (ltb r.next (off + length bytes))) [
    | inl new ↦ rw new (elim (Bool-cases (ltb r.next off)) [
      | inl gap ↦ rw gap (hold-Placed taken r off bytes v p)
      | inr near ↦ rw near (place_fresh-Placed taken r off bytes v p (ground arith) (ground arith))
    ])
    | inr old ↦ rw old (record {
      front = v.front;
      parts = v.parts;
      clean = v.clean;
      fin_same = refl;
      finished_same = refl;
    })
  ]
