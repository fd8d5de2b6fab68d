-- ===== src/Server/Mailbox/Tests.antt =====
-- Runs of the mailbox, and the witnesses of its theorems.
use braid.Prelude.{ℕ, zero, suc, ◌≡◌, refl, List, [], ◌∷◌, ◌++◌, length}
use braid.Server.Mailbox.{
  ActorEvent, command, pty_output, pty_ended, kill, forward_bytes, is_bulk, lane, is_ended, is_kill,
  has_room, push, take_event, is_full, send_turn, recv_turn, Choice, enter, turn, receive, pick,
  bulk, not_bulk, step, run, start,
}
use braid.Server.Mailbox.Lanes.{InOrder, run-InOrder}
use braid.Server.Mailbox.Room.{Orderly}
use braid.Server.Mailbox.Parked.{run-Orderly}

abbrev repeat : ℕ → List (Choice ℕ) → List (Choice ℕ)
repeat zero cs = []
repeat (suc n) cs = cs ++ repeat n cs

abbrev sends : ActorEvent ℕ → List (Choice ℕ)
sends e = enter e ∷ turn 0 ∷ []

-- A shell floods its lane and ends while a command is typed: one read parks, and the command is
-- received first.
abbrev flood : List (Choice ℕ)
flood =
    repeat 33 (sends (pty_output 7))
    ++ sends (command 3)
    ++ sends pty_ended
    ++ (receive 0 ∷ receive 0 ∷ turn 0 ∷ receive 0 ∷ [])

flood_left : (run (start ℕ) flood).left ≡ command 3 ∷ pty_output 7 ∷ pty_output 7 ∷ []
unfolding run step send_turn has_room is_ended is_kill is_bulk push lane recv_turn take_event
    is_full pick bulk not_bulk
flood_left = refl

run-InOrder_example :
    InOrder (run (start ℕ) flood).state (run (start ℕ) flood).entered (run (start ℕ) flood).left
run-InOrder_example = run-InOrder ℕ flood

-- The control lane is full, a kill takes the slot past its bound, and a kill and a command park;
-- then one event is received.
abbrev crowd : List (Choice ℕ)
crowd =
    repeat 256 (sends (command 1))
    ++ sends (kill 2)
    ++ sends (kill 3)
    ++ sends (command 4)
    ++ (receive 0 ∷ turn 0 ∷ turn 0 ∷ [])

crowd_waits :
    ((run (start ℕ) crowd).parked ≡ command 4 ∷ [])
    × (length (run (start ℕ) crowd).state.control ≡ 257)
unfolding run step send_turn has_room is_ended is_kill is_bulk push lane recv_turn take_event
    is_full pick bulk not_bulk
crowd_waits = (refl, refl)

run-Orderly_example : Orderly (run (start ℕ) crowd).state (run (start ℕ) crowd).parked
run-Orderly_example = run-Orderly ℕ crowd

-- Two reads park on a full output lane, and the receiver takes two events before the first of them
-- is back under the lock: the lane is then drained to its end, and the second read is still parked.
abbrev drained : List (Choice ℕ)
drained =
    repeat 32 (sends (pty_output 0))
    ++ sends (pty_output 1)
    ++ sends (forward_bytes 2)
    ++ (receive 0 ∷ receive 0 ∷ turn 0 ∷ [])
    ++ repeat 31 (receive 0 ∷ [])

drained_parked :
    ((run (start ℕ) drained).state.output ≡ [])
    × ((run (start ℕ) drained).awake ≡ [])
    × ((run (start ℕ) drained).parked ≡ pty_output 1 ∷ [])
unfolding run step send_turn has_room is_ended is_kill is_bulk push lane recv_turn take_event
    is_full pick bulk not_bulk
drained_parked = (refl, refl, refl)
