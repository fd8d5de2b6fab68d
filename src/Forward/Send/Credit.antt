-- ===== src/Forward/Send/Credit.antt =====
-- crates/forward/src/send.rs: how far a poll may go.
use braid.Prelude.{ℕ, ◌+◌, ◌≤◌, min, max, ◌≡◌, ◌⊎◌, inl, inr, Bool, some, List, arith}
use braid.Forward.Wire.{max_forward_chunk, Segment}
use braid.Forward.Send.{
  Sender, Owed, repair, fresh_bytes, end_mark, probe, nothing, granted, woken_up, rouse, fill_owed,
  poll_transmit,
}
use braid.Forward.Send.Inv.{Inv, end-Inv}
use braid.Forward.Send.Duty.{Sound, owed-Sound}
use braid.Forward.Send.Fill.{length-cut, fill-off}
use braid.Forward.Send.Emit.{rouse-Inv, poll_some}
use braid.Forward.Timer.{due}

-- How far a segment may reach.
abbrev Credited : Sender → ℕ → ℕ → Type 0
Credited s off len =
    (off + len ≤ max (granted s) s.next) ⊎ (off ≡ s.base) × (s.next ≡ s.base) × (len ≤ 1)

fill_owed-Credited :
    (wrap : Sender → ℕ) (log : List ℕ) (s : Sender) (budget : ℕ) (o : Owed) (segment : Segment)
    (bytes : List ℕ)
    → Inv log s
    → Sound s budget o
    → fill_owed wrap s o ≡ some (segment, bytes)
    → Credited s segment.off segment.len
unfolding fill_owed
fill_owed-Credited wrap log s budget (repair off len) g bs v d e =
    let (o, l) = fill-off wrap s off len g bs e in
    let k = (length-cut wrap s off len d.0 (omega (arith, d.1, v.written, end-Inv log s v))).0 in
    inl (omega (arith, o, l, k, d.1))
fill_owed-Credited wrap log s budget (fresh_bytes off len) g bs v d e =
    let (o, l) = fill-off wrap s off len g bs e in
    let k = (length-cut wrap s off len (omega (arith, d.0, v.walked, v.sent)) d.1).0 in
    inl (omega (arith, o, l, k, d.2))
fill_owed-Credited wrap log s budget (end_mark off) g bs v d e =
    let (o, l) = fill-off wrap s off 0 g bs e in
    let k = (length-cut wrap s off 0 (omega (arith, d.0)) (omega (arith, d.0))).0 in
    inl (omega (arith, o, l, k, d.0, d.2))
fill_owed-Credited wrap log s budget (probe off) g bs v d e =
    let (o, l) = fill-off wrap s off 1 g bs e in
    let k = (length-cut wrap s off 1 (omega (arith, d.0)) (omega (arith, d.0, d.1))).0 in
    inr (omega (arith, o, d.0), d.2, omega (arith, l, k))
fill_owed-Credited wrap log s budget nothing g bs v d e = cc

rouse_same :
    (s : Sender) (woken : Bool)
    → ((rouse s woken).base ≡ s.base)
      × ((rouse s woken).next ≡ s.next)
      × ((rouse s woken).window ≡ s.window)
unfolding rouse woken_up
rouse_same s woken = ground arith

-- A poll never sends past what the peer has granted: a segment ends within the granted window, or
-- within what was sent before the window shrank, or it is a probe of at most one byte at `base`,
-- with nothing in flight. The sender keeps its invariant.
pub poll-credit :
    (wrap : Sender → ℕ) (log : List ℕ) (s : Sender) (now budget : ℕ) (segment : Segment)
    (bytes : List ℕ)
    → Inv log s
    → (poll_transmit wrap s now budget).1 ≡ some (segment, bytes)
    → (segment.off + segment.len ≤ max (granted s) s.next)
      ⊎ (segment.off ≡ s.base) × (s.next ≡ s.base) × (segment.len ≤ 1)
poll-credit wrap log s now budget g bs v e =
    let woken = due s.timer now in
    let (b, n, w) = rouse_same s woken in
    let (out, pos) = poll_some wrap s now budget g bs e in
    let v' = rouse-Inv log s woken v in
    let c =
      fill_owed-Credited wrap log (rouse s woken) _ _ g bs v'
        (owed-Sound log (rouse s woken) woken (min budget max_forward_chunk) v' pos) out in
    rw (b, n, w) at c
