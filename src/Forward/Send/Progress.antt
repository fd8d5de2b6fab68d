-- ===== src/Forward/Send/Progress.antt =====
-- crates/forward/src/send.rs: when a poll answers.
use braid.Prelude.{
  ℕ, ◌<◌, min, ◌≡◌, refl, ◌≢◌, inl, inr, true, false, Option, none, some, List, arith, ltb,
  Bool-cases, is_some, length,
}
use braid.Forward.Send.{
  Sender, nothing, end, unheld, awaiting_ack, deadline, is_at, owed_fresh, owed, woken_up, rouse,
  poll_transmit, transmitted,
}
use braid.Forward.Wire.{max_forward_chunk, Segment}
use braid.Forward.Piece.{EndsAt}
use braid.Forward.Send.Inv.{Inv, end-Inv}
use braid.Forward.Send.Emit.{rouse-Inv, poll-answers}
use braid.Forward.Send.Sacks.{HeldIn, unheld-base}
use braid.Forward.Timer
use braid.Forward.Timer.{due}

is_at-end :
    (log : List ℕ) (o : Option ℕ) (n : ℕ)
    → EndsAt log o
    → n ≡ length log
    → is_some o ≡ true
    → is_at o n ≡ true
is_at-end log none n e q h = cc
is_at-end log (some x) n e q h = ground arith

owed_fresh-woken :
    (log : List ℕ) (s : Sender) (budget : ℕ)
    → Inv log s
    → s.next ≡ s.base
    → awaiting_ack s ≡ true
    → s.fin_sent ≡ false
    → owed_fresh s true budget ≢ nothing
unfolding owed_fresh awaiting_ack
owed_fresh-woken log s budget v n a f =
    ground (arith, is_at-end log s.fin (end s) v.ends (end-Inv log s v))

owed-woken :
    (log : List ℕ) (s : Sender) (budget : ℕ)
    → Inv log s
    → HeldIn s
    → awaiting_ack s ≡ true
    → owed (rouse s true) true budget ≢ nothing
unfolding owed rouse woken_up awaiting_ack
owed-woken log s budget v h a = elim (Bool-cases (ltb s.base s.next)) [
  | inl flying ↦
      let head : ltb (unheld s.held s.base) s.next ≡ true =
        rw (unheld-base s.held s.base s.next h) flying in
      rw (flying, head) (λ e. cc)
  | inr landed ↦
      rw landed
        (owed_fresh-woken log (woken_up s) budget (rouse-Inv log s true v) (ground arith) a refl)
]

-- What is sent arms the timer, if it was not.
transmitted-deadline :
    (s : Sender) (segment : Segment) (now later : ℕ)
    → is_some (deadline (transmitted s segment now) later) ≡ true
unfolding transmitted deadline Timer.transmitted Timer.take_sample Timer.arm Timer.remaining
transmitted-deadline s segment now later = ground arith

-- The poll that finds the timer due while anything is unacknowledged yields a segment, even against a
-- shut window, and once that segment is reported as sent the timer runs again, so that the stream has
-- a deadline to be polled at. The sender keeps its invariant, its ranges lie between what is confirmed
-- and what was sent, and there is a budget. Of a segment that is not reported as sent nothing is said.
pub due-answers :
    (wrap : Sender → ℕ) (log : List ℕ) (s : Sender) (now budget at later : ℕ)
    → Inv log s
    → HeldIn s
    → awaiting_ack s ≡ true
    → due s.timer now ≡ true
    → 0 < budget
    → (sent : Segment × List ℕ) × ((poll_transmit wrap s now budget).1 ≡ some sent)
      × (is_some (deadline (transmitted (poll_transmit wrap s now budget).0 sent.0 at) later)
          ≡ true)
due-answers wrap log s now budget at later v h a d pos =
    let (sent, e) =
      poll-answers wrap log s now budget v pos
        (rw d (owed-woken log s (min budget max_forward_chunk) v h a)) in
    (sent, e, transmitted-deadline (poll_transmit wrap s now budget).0 sent.0 at later)
