-- ===== src/Forward/Send/Again.antt =====
-- crates/forward/src/send.rs: what a frame costs that the caller could not send.
use braid.Prelude.{
  ℕ, ◌≤◌, ◌<◌, min, ◌≡◌, refl, ap, ◌⊎◌, inl, inr, true, false, some, List, arith, ◌==◌, Bool-cases,
  length, u64_max,
}
use braid.Forward.Wire.{max_forward_chunk, Segment}
use braid.Forward.Send.{Sender, owed_fresh, owed, woken_up, rouse, fill_owed, poll_transmit}
use braid.Forward.Send.Inv.{Inv, end-Inv}
use braid.Forward.Send.Emit.{woken_up-Inv, poll_some}
use braid.Forward.Timer.{due, expired}

owed-rested :
    (log : List ℕ) (s : Sender) (budget : ℕ)
    → Inv log s
    → length log ≤ u64_max
    → (s.base < s.next) ⊎ (0 < s.window)
    → owed s true budget ≡ owed s false budget
unfolding owed owed_fresh
owed-rested log s budget v short k = ground (arith, end-Inv log s v)

due-woken_up : (s : Sender) (now : ℕ) → due (woken_up s).timer now ≡ false
unfolding woken_up due expired
due-woken_up s now = refl

poll-rested :
    (wrap : Sender → ℕ) (s : Sender) (now budget : ℕ)
    → 0 < min budget max_forward_chunk
    → due s.timer now ≡ false
    → poll_transmit wrap s now budget
      ≡ (s, fill_owed wrap s (owed s false (min budget max_forward_chunk)))
unfolding poll_transmit rouse
poll-rested wrap s now budget pos d =
    let room : (min budget max_forward_chunk == 0) ≡ false = ground arith in rw (d, room)

poll-roused :
    (wrap : Sender → ℕ) (s : Sender) (now budget : ℕ)
    → 0 < min budget max_forward_chunk
    → due s.timer now ≡ true
    → poll_transmit wrap s now budget ≡ (
      woken_up s,
      fill_owed wrap (woken_up s) (owed (woken_up s) true (min budget max_forward_chunk)),
    )
unfolding poll_transmit rouse
poll-roused wrap s now budget pos d =
    let room : (min budget max_forward_chunk == 0) ≡ false = ground arith in rw (d, room)

-- A frame that the caller could not send is offered again: a second poll at the same time and
-- budget hands out the same segment with the same bytes, if anything is in flight or the window is
-- open. The sender keeps its invariant, and what was written fits 64 bits.
pub poll-again :
    (wrap : Sender → ℕ) (log : List ℕ) (s : Sender) (now budget : ℕ) (segment : Segment)
    (bytes : List ℕ)
    → Inv log s
    → length log ≤ u64_max
    → (s.base < s.next) ⊎ (0 < s.window)
    → (poll_transmit wrap s now budget).1 ≡ some (segment, bytes)
    → (poll_transmit wrap (poll_transmit wrap s now budget).0 now budget).1 ≡ some (segment, bytes)
unfolding woken_up
poll-again wrap log s now budget g bs v short k e =
    let pos = (poll_some wrap s now budget g bs e).1 in
    elim (Bool-cases (due s.timer now)) [
      | inl d ↦ again_woken pos d (rw (poll-roused wrap s now budget pos d) at e)
      | inr d ↦ let p = poll-rested wrap s now budget pos d in rw (ap (λ x. x.0) p) e
    ]
  where
    again_woken :
        0 < min budget max_forward_chunk
        → due s.timer now ≡ true
        → fill_owed wrap (woken_up s) (owed (woken_up s) true (min budget max_forward_chunk))
          ≡ some (g, bs)
        → (poll_transmit wrap (poll_transmit wrap s now budget).0 now budget).1 ≡ some (g, bs)
    again_woken pos d out =
        let r = woken_up s in
        let same =
          owed-rested log r (min budget max_forward_chunk) (woken_up-Inv log s v) short k in
        rw
          (
            poll-roused wrap s now budget pos d,
            poll-rested wrap r now budget pos (due-woken_up s now),
            ← same,
          )
          out
