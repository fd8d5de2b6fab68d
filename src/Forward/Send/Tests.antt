-- ===== src/Forward/Send/Tests.antt =====
-- crates/forward/src/send.rs: the sender on concrete streams.
use braid.Prelude.{
  is_some, ℕ, ◌≤◌, min, max, ◌≡◌, refl, ◌⊎◌, inl, true, false, none, some, List, [], ◌∷◌, arith,
  length,
}
use braid.Forward.Wire.{max_forward_chunk, initial_window, Segment}
use braid.Forward.Piece.{IsSegment}
use braid.Forward.Send.{
  Sender, unheld, next_held, awaiting_ack, deadline, granted, owed_fresh, owed, rouse, cut, fill,
  fill_owed, poll_transmit, transmitted, on_ack,
}
use braid.Forward.Send.Inv.{Inv, transmitted-Inv, on_ack-Inv}
use braid.Forward.Send.Emit.{poll_transmit-Inv, poll_transmit-lawful}
use braid.Forward.Send.Sacks.{HeldIn, on_ack-HeldIn}
use braid.Forward.Send.Progress.{due-answers}
use braid.Forward.Send.Credit.{poll-credit}
use braid.Forward.Send.Again.{poll-again}
use braid.Forward.Timer

abbrev log : List ℕ
log = 11 ∷ 12 ∷ 13 ∷ []

-- The queue's storage does not wrap.
abbrev unwrapped : Sender → ℕ
unwrapped s = length s.buffer

-- Two of three bytes are sent, and the end is declared.
abbrev partway : Sender
partway = record {
  base = 0;
  buffer = log;
  next = 2;
  cursor = 2;
  fin = some 3;
  fin_sent = false;
  fin_acked = false;
  window = initial_window;
  held = [];
  timer = record Timer.fresh { waiting = some 0 };
}

partway-Inv : Inv log partway
partway-Inv = record {
  base_in = omega arith;
  buffer = refl;
  small = omega arith;
  walked = omega arith;
  sent = omega arith;
  written = omega arith;
  ends = refl;
}

-- Nothing is in flight, and the window is shut.
abbrev shut : Sender
shut = record partway { next = 0; cursor = 0; fin = none; window = 0 }

-- When the timer of both has gone off.
abbrev later : ℕ
later = 3_000_000_000

abbrev last : Segment
last = record { off = 2; fin = true; len = 1 }

partway_due : Timer.due partway.timer later ≡ true
unfolding Timer.due Timer.interval Timer.fresh
partway_due = refl

rest_polled : (poll_transmit unwrapped partway 1 9).1 ≡ some (last, 13 ∷ [])
unfolding poll_transmit Timer.due Timer.interval Timer.fresh rouse owed owed_fresh unheld next_held
    fill_owed fill cut
rest_polled = refl

on_ack-Inv_example : Inv log (on_ack partway 1 64 (record { gap = 5; len = 1 } ∷ []) 7).0
on_ack-Inv_example = on_ack-Inv log partway 1 64 (record { gap = 5; len = 1 } ∷ []) 7 partway-Inv

transmitted-Inv_example : Inv log (transmitted partway last 1)
transmitted-Inv_example = transmitted-Inv log partway last 1 partway-Inv (omega arith)

poll_transmit-lawful_example :
    IsSegment log 2 true (13 ∷ []) × (last.len ≡ 1) × (1 ≤ min 9 max_forward_chunk)
poll_transmit-lawful_example =
    poll_transmit-lawful unwrapped log partway 1 9 last (13 ∷ []) partway-Inv rest_polled

poll_transmit-Inv_example : Inv log (poll_transmit unwrapped partway later 9).0
poll_transmit-Inv_example = poll_transmit-Inv unwrapped log partway later 9 partway-Inv

due-answers_example :
    (sent : Segment × List ℕ) × ((poll_transmit unwrapped partway later 9).1 ≡ some sent)
    × (is_some
          (deadline (transmitted (poll_transmit unwrapped partway later 9).0 sent.0 later) later)
        ≡ true)
unfolding awaiting_ack
due-answers_example =
    due-answers unwrapped log partway later 9 later later partway-Inv tt refl partway_due
      (omega arith)

poll-credit_example :
    (3 ≤ max (granted partway) 2) ⊎ (last.off ≡ 0) × (partway.next ≡ 0) × (last.len ≤ 1)
poll-credit_example = poll-credit unwrapped log partway 1 9 last (13 ∷ []) partway-Inv rest_polled

poll-again_example :
    (poll_transmit unwrapped (poll_transmit unwrapped partway 1 9).0 1 9).1 ≡ some (last, 13 ∷ [])
poll-again_example =
    poll-again unwrapped log partway 1 9 last (13 ∷ []) partway-Inv (omega arith)
      (inl (omega arith)) rest_polled

on_ack-HeldIn_example : HeldIn (on_ack partway 0 64 (record { gap = 1; len = 1 } ∷ []) 7).0
on_ack-HeldIn_example =
    on_ack-HeldIn log partway 0 64 (record { gap = 1; len = 1 } ∷ []) 7 partway-Inv tt (omega arith)
      (omega arith)

abbrev unended : Sender
unended = record partway { fin = none }

unended_polled :
    (poll_transmit unwrapped unended 1 9).1 ≡ some (record last { fin = false }, 13 ∷ [])
unfolding poll_transmit Timer.due Timer.interval Timer.fresh rouse owed owed_fresh unheld next_held
    fill_owed fill cut
unended_polled = refl
