-- ===== src/Server/Mailbox.antt =====
-- crates/server/src/mailbox.rs: the session actor's mailbox, two lanes under one lock. What an event
-- carries is only moved. Each hold of the lock is one step, and a schedule of choices says whose it
-- is; a producer that waits on its lane's condition variable is parked. What a thread notifies after
-- it let go of the lock counts to its step, since a producer still to be notified is like one that is
-- still to take the lock. A sender is dropped once, so the count of senders never falls below 0.
pub mod Lanes
pub mod Every
pub mod Room
pub mod Parked
pub mod Tests
use braid.Prelude.{
  ℕ, zero, suc, ◌+◌, ◌-◌, Bool, true, false, not, Option, none, some, List, [], ◌∷◌, ◌++◌, ltb, leb,
  ◌==◌, if◌then◌else◌, length,
}

pub data ActorEvent (P : Type 0) : Type 0 where
  attach command detached : P → ActorEvent P
  pty_output : P → ActorEvent P
  pty_ended : ActorEvent P
  kill search_scrollback : P → ActorEvent P
  forward_connected forward_bytes forward_eof : P → ActorEvent P

abbrev pub control_lane : ℕ
control_lane = 256

abbrev pub output_lane : ℕ
output_lane = 32

pub data Lane : Type 0 where
  control output : Lane

pub record MailboxState (P : Type 0) : Type 0 where
  pub control : List (ActorEvent P)
  pub output : List (ActorEvent P)
  pub senders : ℕ
  pub closed : Bool

pub data SendError : Type 0 where
  full closed : SendError

-- What one turn of a sender under the lock comes to.
pub data Turn (P : Type 0) : Type 0 where
  refused : Turn P
  pushed : MailboxState P → Turn P
  waits : Turn P

pub data NoEvent : Type 0 where
  timeout disconnected : NoEvent

-- Whom a dequeue wakes.
pub data Wake : Type 0 where
  nobody one_output all_control : Wake

abbrev pub freed : Lane → Wake
freed output = one_output
freed control = all_control

module _ {P : Type 0} where
  unfoldable pub is_bulk : ActorEvent P → Bool
  is_bulk (pty_output x) = true
  is_bulk pty_ended = true
  is_bulk (forward_connected x) = true
  is_bulk (forward_bytes x) = true
  is_bulk (forward_eof x) = true
  is_bulk (attach x) = false
  is_bulk (command x) = false
  is_bulk (detached x) = false
  is_bulk (kill x) = false
  is_bulk (search_scrollback x) = false

  unfoldable pub lane : ActorEvent P → Lane
  lane e = if is_bulk e then output else control

  unfoldable pub is_ended : ActorEvent P → Bool
  is_ended pty_ended = true
  is_ended e = false

  unfoldable pub is_kill : ActorEvent P → Bool
  is_kill (kill x) = true
  is_kill e = false

  unfoldable pub has_room : MailboxState P → ActorEvent P → Bool
  has_room s e =
      if is_ended e
      then true
      else if is_kill e
      then ltb (length s.control) (control_lane + 1)
      else if is_bulk e
      then ltb (length s.output) output_lane
      else ltb (length s.control) control_lane

  abbrev pub on_lane : Lane → MailboxState P → ActorEvent P → MailboxState P
  on_lane output s e = record s { output = s.output ++ (e ∷ []) }
  on_lane control s e = record s { control = s.control ++ (e ∷ []) }

  unfoldable pub push : MailboxState P → ActorEvent P → MailboxState P
  push s e = on_lane (lane e) s e

  abbrev pub take_output :
      MailboxState P → List (ActorEvent P) → Option (ActorEvent P × Lane × MailboxState P)
  take_output s [] = none
  take_output s (e ∷ es) = some (e, output, record s { output = es })

  abbrev pub take_control :
      MailboxState P → List (ActorEvent P) → Option (ActorEvent P × Lane × MailboxState P)
  take_control s [] = take_output s s.output
  take_control s (e ∷ es) = some (e, control, record s { control = es })

  unfoldable pub take_event : MailboxState P → Option (ActorEvent P × Lane × MailboxState P)
  take_event s = take_control s s.control

  unfoldable pub is_full : MailboxState P → Lane → Bool
  is_full s control = leb control_lane (length s.control)
  is_full s output = leb output_lane (length s.output)

  -- The body of the loop of `send`, and of `send_timeout` before its deadline.
  unfoldable pub send_turn : MailboxState P → ActorEvent P → Turn P
  send_turn s e = if s.closed then refused else if has_room s e then pushed (push s e) else waits

  unfoldable pub try_send : MailboxState P → ActorEvent P → MailboxState P × Option SendError
  try_send s e =
      if s.closed
      then (s, some closed)
      else if not (has_room s e)
      then (s, some full)
      else (push s e, none)

  -- One pass of `recv_timeout` that finds an event: the lanes are measured before the pop.
  abbrev pub woken :
      MailboxState P → ActorEvent P × Lane × MailboxState P → ActorEvent P × MailboxState P × Wake
  woken s (e, popped, s') = (e, s', if is_full s popped then freed popped else nobody)

  abbrev pub received :
      MailboxState P
      → Option (ActorEvent P × Lane × MailboxState P)
      → Option (ActorEvent P × MailboxState P × Wake)
  received s none = none
  received s (some r) = some (woken s r)

  unfoldable pub recv_turn : MailboxState P → Option (ActorEvent P × MailboxState P × Wake)
  recv_turn s = received s (take_event s)

  -- A pass that finds nothing gives up, or waits for an arrival.
  unfoldable pub idle : MailboxState P → Bool → Option NoEvent
  idle s timed_out =
      if s.senders == 0 then some disconnected else if timed_out then some timeout else none

  unfoldable pub clone_sender : MailboxState P → MailboxState P
  clone_sender s = record s { senders = s.senders + 1 }

  unfoldable pub drop_sender : MailboxState P → MailboxState P
  drop_sender s = record s { senders = s.senders - 1 }

  unfoldable pub drop_receiver : MailboxState P → MailboxState P
  drop_receiver s = record s { closed = true }

abbrev pub mailbox : (P : Type 0) → MailboxState P
mailbox P = record { control = []; output = []; senders = 1; closed = false }

-- The mailbox among its threads: producers about to take the lock with the event they bring, and
-- parked ones; and what was pushed and what was received so far, oldest first.
pub record World (P : Type 0) : Type 0 where
  pub state : MailboxState P
  pub awake : List (ActorEvent P)
  pub parked : List (ActorEvent P)
  pub entered : List (ActorEvent P)
  pub left : List (ActorEvent P)

-- Whose turn it is: a producer calls `send` or `try_send`, the producer at an index takes the lock, a parked one
-- wakes for no reason or gives up, the receiver takes an event, or one end is dropped or cloned.
-- The index of a receive is the parked producer of the lane that `notify_one` would choose.
pub data Choice (P : Type 0) : Type 0 where
  enter attempt : ActorEvent P → Choice P
  turn stir give_up receive : ℕ → Choice P
  hang_up clone_one drop_one : Choice P

module _ {P : Type 0} where
  abbrev pub found :
      ActorEvent P
      → Option (ActorEvent P × List (ActorEvent P))
      → Option (ActorEvent P × List (ActorEvent P))
  found e none = none
  found e (some (x, rest)) = some (x, e ∷ rest)

  unfoldable pub pick : ℕ → List (ActorEvent P) → Option (ActorEvent P × List (ActorEvent P))
  pick i [] = none
  pick zero (e ∷ es) = some (e, es)
  pick (suc i) (e ∷ es) = found e (pick i es)

  unfoldable pub bulk : List (ActorEvent P) → List (ActorEvent P)
  bulk [] = []
  bulk (e ∷ es) = if is_bulk e then e ∷ bulk es else bulk es

  unfoldable pub not_bulk : List (ActorEvent P) → List (ActorEvent P)
  not_bulk [] = []
  not_bulk (e ∷ es) = if is_bulk e then not_bulk es else e ∷ not_bulk es

  abbrev pub after_turn : World P → List (ActorEvent P) → ActorEvent P → Turn P → World P
  after_turn w rest e refused = record w { awake = rest }
  after_turn w rest e (pushed s) = record w {
    state = s;
    awake = rest;
    entered = w.entered ++ (e ∷ []);
  }
  after_turn w rest e waits = record w { awake = rest; parked = e ∷ w.parked }

  abbrev pub attempted : World P → ActorEvent P → MailboxState P × Option SendError → World P
  attempted w e (s, none) = record w { state = s; entered = w.entered ++ (e ∷ []) }
  attempted w e (s, some x) = record w { state = s }

  -- Waking one of the bulk producers, if there is any.
  abbrev pub notify : World P → Option (ActorEvent P × List (ActorEvent P)) → World P
  notify w none = w
  notify w (some (p, rest)) = record w { awake = p ∷ w.awake; parked = not_bulk w.parked ++ rest }

  abbrev pub notified : World P → ℕ → Wake → World P
  notified w i nobody = w
  notified w i one_output = notify w (pick i (bulk w.parked))
  notified w i all_control = record w {
    awake = not_bulk w.parked ++ w.awake;
    parked = bulk w.parked;
  }

  abbrev pub after_receive : World P → ℕ → Option (ActorEvent P × MailboxState P × Wake) → World P
  after_receive w i none = w
  after_receive w i (some (e, s, wake)) =
      notified (record w { state = s; left = w.left ++ (e ∷ []) }) i wake

  abbrev pub taken_turn : World P → Option (ActorEvent P × List (ActorEvent P)) → World P
  taken_turn w none = w
  taken_turn w (some (e, rest)) = after_turn w rest e (send_turn w.state e)

  abbrev pub stirred : World P → Option (ActorEvent P × List (ActorEvent P)) → World P
  stirred w none = w
  stirred w (some (e, rest)) = record w { awake = e ∷ w.awake; parked = rest }

  abbrev pub given_up : World P → Option (ActorEvent P × List (ActorEvent P)) → World P
  given_up w none = w
  given_up w (some (e, rest)) = record w { parked = rest }

  unfoldable pub step : World P → Choice P → World P
  step w (enter e) = record w { awake = e ∷ w.awake }
  step w (attempt e) = attempted w e (try_send w.state e)
  step w (turn i) = taken_turn w (pick i w.awake)
  step w (stir i) = stirred w (pick i w.parked)
  step w (give_up i) = given_up w (pick i w.parked)
  step w (receive i) = after_receive w i (recv_turn w.state)
  step w hang_up = record w {
    state = drop_receiver w.state;
    awake = w.parked ++ w.awake;
    parked = [];
  }
  step w clone_one = record w { state = clone_sender w.state }
  step w drop_one = record w { state = drop_sender w.state }

  unfoldable pub run : World P → List (Choice P) → World P
  run w [] = w
  run w (c ∷ cs) = run (step w c) cs

abbrev pub start : (P : Type 0) → World P
start P = record { state = mailbox P; awake = []; parked = []; entered = []; left = [] }
