-- ===== src/Forward/Send/Emit.antt =====
-- crates/forward/src/send.rs: what `poll_transmit` puts on the wire, and when it puts something.
use braid.Prelude.{
  ℕ, ◌≤◌, ◌<◌, min, ◌≡◌, refl, ◌≢◌, inl, inr, Bool, true, false, none, some, List, arith, ◌==◌,
  Bool-cases, length,
}
use braid.Forward.Wire.{max_forward_chunk, Segment}
use braid.Forward.Piece.{IsSegment}
use braid.Forward.Send.{
  Sender, Owed, repair, fresh_bytes, end_mark, probe, nothing, owed, woken_up, rouse, Sent,
  fill_owed, poll_transmit,
}
use braid.Forward.Send.Inv.{Inv, end-Inv}
use braid.Forward.Send.Duty.{Sound, owed-Sound}
use braid.Forward.Send.Fill.{fill-lawful, fill-some}
use braid.Forward.Timer.{due}

pub rouse-Inv : (log : List ℕ) (s : Sender) (woken : Bool) → Inv log s → Inv log (rouse s woken)
unfolding rouse woken_up
rouse-Inv log s false v = v
rouse-Inv log s true v = record {
  base_in = v.base_in;
  buffer = v.buffer;
  small = v.small;
  walked = omega arith;
  sent = omega (arith, v.walked, v.sent);
  written = v.written;
  ends = v.ends;
}

pub woken_up-Inv : (log : List ℕ) (s : Sender) → Inv log s → Inv log (woken_up s)
unfolding rouse
woken_up-Inv log s v = rouse-Inv log s true v

module _ (wrap : Sender → ℕ) where
  pub poll_some :
      (s : Sender) (now budget : ℕ) (segment : Segment) (bytes : List ℕ)
      → (poll_transmit wrap s now budget).1 ≡ some (segment, bytes)
      → (fill_owed wrap
            (rouse s (due s.timer now))
            (owed (rouse s (due s.timer now)) (due s.timer now) (min budget max_forward_chunk))
          ≡ some (segment, bytes))
        × (0 < min budget max_forward_chunk)
  unfolding poll_transmit
  poll_some s now budget g bs e = elim (Bool-cases (min budget max_forward_chunk == 0)) [
    | inl no_room ↦ absurd (none_some (rw no_room at e))
    | inr room ↦ (rw room at e, ground arith)
  ]
    where
      none_some : (let o : Sent = none in o) ≡ some (g, bs) → ⊥
      none_some h = cc

  -- What is owed is a segment of the stream, as long as the budget allows.
  fill_owed-lawful :
      (log : List ℕ) (s : Sender) (budget : ℕ) (o : Owed) (segment : Segment) (bytes : List ℕ)
      → Inv log s
      → 0 < budget
      → Sound s budget o
      → fill_owed wrap s o ≡ some (segment, bytes)
      → IsSegment log segment.off segment.fin bytes
        × (segment.len ≡ length bytes)
        × (length bytes ≤ budget)
  unfolding fill_owed
  fill_owed-lawful log s budget (repair off len) g bs v pos d e =
      let (l, n, k) =
        fill-lawful wrap log s off len g bs v d.0 (omega (arith, d.1, v.written, end-Inv log s v))
          e in
      (l, n, omega (arith, k, d.3))
  fill_owed-lawful log s budget (fresh_bytes off len) g bs v pos d e =
      let (l, n, k) =
        fill-lawful wrap log s off len g bs v (omega (arith, d.0, v.walked, v.sent)) d.1 e in
      (l, n, omega (arith, k, d.4))
  fill_owed-lawful log s budget (end_mark off) g bs v pos d e =
      let (l, n, k) =
        fill-lawful wrap log s off 0 g bs v (omega (arith, d.0)) (omega (arith, d.0)) e in
      (l, n, omega (arith, k))
  fill_owed-lawful log s budget (probe off) g bs v pos d e =
      let (l, n, k) =
        fill-lawful wrap log s off 1 g bs v (omega (arith, d.0)) (omega (arith, d.0, d.1)) e in
      (l, n, omega (arith, k))
  fill_owed-lawful log s budget nothing g bs v pos d e = cc

  -- Nothing that is owed is withheld.
  fill_owed-some :
      (log : List ℕ) (s : Sender) (budget : ℕ) (o : Owed)
      → Inv log s
      → Sound s budget o
      → o ≢ nothing
      → (sent : Segment × List ℕ) × (fill_owed wrap s o ≡ some sent)
  unfolding fill_owed
  fill_owed-some log s budget (repair off len) v d ne =
      fill-some wrap log s off len d.0 (omega (arith, d.1, v.written, end-Inv log s v)) (inl d.2)
  fill_owed-some log s budget (fresh_bytes off len) v d ne =
      fill-some wrap log s off len (omega (arith, d.0, v.walked, v.sent)) d.1 (inl d.3)
  fill_owed-some log s budget (end_mark off) v d ne =
      fill-some wrap log s off 0 (omega (arith, d.0)) (omega (arith, d.0)) (inr (refl, d.1))
  fill_owed-some log s budget (probe off) v d ne =
      fill-some wrap log s off 1 (omega (arith, d.0)) (omega (arith, d.0, d.1)) (inl (omega arith))
  fill_owed-some log s budget nothing v d ne = absurd (ne refl)

  -- Polling keeps the invariant.
  pub poll_transmit-Inv :
      (log : List ℕ) (s : Sender) (now budget : ℕ)
      → Inv log s
      → Inv log (poll_transmit wrap s now budget).0
  unfolding poll_transmit
  poll_transmit-Inv log s now budget v = elim (Bool-cases (min budget max_forward_chunk == 0)) [
    | inl no_room ↦ rw no_room v
    | inr room ↦ rw room (rouse-Inv log s (due s.timer now) v)
  ]

  -- What a poll hands out is a piece of the written stream, marked as the end only where the
  -- stream ends, and no longer than the budget and one chunk. The sender keeps its invariant.
  pub poll_transmit-lawful :
      (log : List ℕ) (s : Sender) (now budget : ℕ) (segment : Segment) (bytes : List ℕ)
      → Inv log s
      → (poll_transmit wrap s now budget).1 ≡ some (segment, bytes)
      → IsSegment log segment.off segment.fin bytes
        × (segment.len ≡ length bytes)
        × (length bytes ≤ min budget max_forward_chunk)
  unfolding poll_transmit
  poll_transmit-lawful log s now budget g bs v e =
      let (out, pos) = poll_some s now budget g bs e in
      let s' = rouse s (due s.timer now) in
      let v' = rouse-Inv log s (due s.timer now) v in
      fill_owed-lawful log s' (min budget max_forward_chunk) _ g bs v' pos
        (owed-Sound log s' (due s.timer now) (min budget max_forward_chunk) v' pos) out

  -- A poll with room in its budget hands out something whenever something is owed.
  pub poll-answers :
      (log : List ℕ) (s : Sender) (now budget : ℕ)
      → Inv log s
      → 0 < budget
      → owed (rouse s (due s.timer now)) (due s.timer now) (min budget max_forward_chunk) ≢ nothing
      → (sent : Segment × List ℕ) × ((poll_transmit wrap s now budget).1 ≡ some sent)
  unfolding poll_transmit
  poll-answers log s now budget v pos ne =
      let some_room : (min budget max_forward_chunk == 0) ≡ false = ground arith in
      let s' = rouse s (due s.timer now) in
      let v' = rouse-Inv log s (due s.timer now) v in
      rw some_room (
        fill_owed-some log s' (min budget max_forward_chunk) _ v'
          (owed-Sound log s' (due s.timer now) (min budget max_forward_chunk) v' (omega arith)) ne)
