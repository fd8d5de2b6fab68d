-- ===== src/Forward/Recv/Advance.antt =====
-- crates/forward/src/recv.rs: a segment that reaches over the gap is taken, if there is room.
use braid.Prelude.{
  ℕ, ◌+◌, ◌-◌, ◌≤◌, ◌<◌, ◌≡◌, refl, Bool, true, List, [], ◌∷◌, ◌++◌, arith, length, drop,
  length-drop, u64_max,
}
use braid.Forward.Wire.{forward_window}
use braid.Forward.Piece.{IsSegment}
use braid.Forward.Recv.{
  Held, Receiver, admits, settle_end, recycle, place, drain, drain_held, place_fresh, accept,
  receive, on_data,
}
use braid.Forward.Recv.Pieces.{saturating_add-piece}
use braid.Forward.Recv.Deliver.{Delivers, end_after, declare-segment}

settle_end-ahead :
    (r : Receiver) → (r.next ≤ (settle_end r).next) × ((settle_end r).ack_owed ≡ r.ack_owed)
unfolding settle_end
settle_end-ahead r = ground arith

module _ (capacity : Receiver → List ℕ → ℕ) where
  place-ahead : (r : Receiver) (off : ℕ) (h : List ℕ) → r.next ≤ (place capacity r off h).next
  unfolding place recycle
  place-ahead r off h = ground arith

  drain-ahead : (rest : Held) (r : Receiver) → r.next ≤ (drain capacity rest r).next
  unfolding drain
  drain-ahead [] r = omega arith
  drain-ahead ((off, h) ∷ rest) r =
      ground (arith, place-ahead r off h, drain-ahead rest (place capacity r off h))

  drain-ack_owed : (rest : Held) (r : Receiver) → (drain capacity rest r).ack_owed ≡ r.ack_owed
  unfolding drain place recycle
  drain-ack_owed [] r = refl
  drain-ack_owed ((off, h) ∷ rest) r = ground (arith, drain-ack_owed rest (place capacity r off h))

  accept-advances :
      (r : Receiver) (off : ℕ) (bytes : List ℕ)
      → off ≤ r.next
      → length r.ready + (off + length bytes - r.next) ≤ forward_window
      → (off + length bytes ≤ (accept capacity r off bytes (off + length bytes)).next)
        × ((accept capacity r off bytes (off + length bytes)).ack_owed ≡ r.ack_owed)
  unfolding accept place_fresh drain_held admits
  accept-advances r off bytes le room =
      let bs = drop (r.next - off) bytes in
      let placed = record r { ready = r.ready ++ bs; next = off + length bytes } in
      ground (
        arith,
        length-drop (r.next - off) bytes,
        drain-ahead r.held placed,
        drain-ack_owed r.held placed,
      )

  -- A segment of the stream that starts by `next` and fits what the socket has yet to read is
  -- taken whole, and an acknowledgement of it is owed. The receiver delivers the stream so far,
  -- which has fewer than 2 ^ 64 - 1 bytes.
  pub on_data-advances :
      (log taken : List ℕ) (r : Receiver) (off : ℕ) (fin : Bool) (bytes : List ℕ)
      → length log < u64_max
      → Delivers log taken r
      → IsSegment log off fin bytes
      → off ≤ r.next
      → length r.ready + (off + length bytes - r.next) ≤ forward_window
      → (off + length bytes ≤ (on_data capacity r off fin bytes).0.next)
        × ((on_data capacity r off fin bytes).0.ack_owed ≡ true)
  unfolding on_data receive
  on_data-advances log taken r off fin bytes short v s le room =
      rw
        (
          saturating_add-piece log off bytes s.piece short,
          declare-segment log taken r off fin bytes v s,
          receive,
        )
        (let r' = record r { fin = end_after log fin r.fin; ack_owed = true } in
          ground (
            arith,
            accept-advances r' off bytes,
            settle_end-ahead (accept capacity r' off bytes (off + length bytes)),
          ))
