-- ===== src/Server/Mailbox/Parked.antt =====
-- The lanes keep to their bounds, and nobody is parked on the control lane for nothing.
use braid.Prelude.{
  ℕ, ◌+◌, ◌-◌, ◌≤◌, ◌≡◌, refl, sym, ◌∙◌, Bool, true, false, not, Option, none, some, List, [], ◌∷◌,
  ◌++◌, arith, if◌then◌else◌, length,
}
use braid.Server.Mailbox.{
  ActorEvent, control_lane, output_lane, control, MailboxState, full, closed, refused, pushed,
  waits, nobody, one_output, all_control, is_bulk, has_room, push, take_event, is_full, send_turn,
  try_send, recv_turn, clone_sender, drop_sender, drop_receiver, World, Choice, enter, attempt,
  turn, stir, give_up, receive, hang_up, clone_one, drop_one, pick, bulk, not_bulk, after_turn,
  attempted, notify, notified, after_receive, taken_turn, stirred, given_up, step, run, start,
}
use braid.Server.Mailbox.Every.{Every, Every-map, Remain, Remain-pick, Every-append, Every-bulk}
use braid.Server.Mailbox.Room.{
  Stuck, Orderly, clash, tight_mono, roomed, roomed-tail, below-has_room, push-Orderly,
}

module _ {P : Type 0} where
  abbrev IsOrderly : World P → Type 0
  IsOrderly w = Orderly w.state w.parked

  tested-IsOrderly :
      (shut room : Bool) (w : World P) (rest : List (ActorEvent P)) (e : ActorEvent P)
      → w.state.closed ≡ shut
      → has_room w.state e ≡ room
      → IsOrderly w
      → IsOrderly (
          after_turn w rest e
            (if shut then refused else if room then pushed (push w.state e) else waits))
  tested-IsOrderly true room w rest e p r h = h
  tested-IsOrderly false true w rest e p r h = push-Orderly w.state e w.parked r h
  tested-IsOrderly false false w rest e p r h = record {
    control_bound = h.control_bound;
    output_bound = h.output_bound;
    waiting = (record { alive = p; tight = λ b. r }, h.waiting);
  }

  attempted-IsOrderly :
      (shut room : Bool) (w : World P) (e : ActorEvent P)
      → has_room w.state e ≡ room
      → IsOrderly w
      → IsOrderly (
          attempted w e (
            if shut
            then (w.state, some closed)
            else if not room
            then (w.state, some full)
            else (push w.state e, none)))
  attempted-IsOrderly true room w e r h = h
  attempted-IsOrderly false true w e r h = push-Orderly w.state e w.parked r h
  attempted-IsOrderly false false w e r h = h

  taken-IsOrderly :
      (w : World P) (found : Option (ActorEvent P × List (ActorEvent P)))
      → IsOrderly w
      → IsOrderly (taken_turn w found)
  unfolding send_turn
  taken-IsOrderly w none h = h
  taken-IsOrderly w (some (e, rest)) h =
      tested-IsOrderly w.state.closed (has_room w.state e) w rest e refl refl h

  fewer-IsOrderly :
      (s : MailboxState P) (before after : List (ActorEvent P))
      → Every (Stuck s) after
      → Orderly s before
      → Orderly s after
  fewer-IsOrderly s before after k h = record {
    control_bound = h.control_bound;
    output_bound = h.output_bound;
    waiting = k;
  }

  stirred-IsOrderly :
      (w : World P) (found : Option (ActorEvent P × List (ActorEvent P)))
      → Remain (Stuck w.state) found
      → IsOrderly w
      → IsOrderly (stirred w found) × IsOrderly (given_up w found)
  stirred-IsOrderly w none k h = (h, h)
  stirred-IsOrderly w (some (e, rest)) k h =
      (fewer-IsOrderly w.state w.parked rest k h, fewer-IsOrderly w.state w.parked rest k h)

  notify-IsOrderly :
      (w : World P) (found : Option (ActorEvent P × List (ActorEvent P)))
      → Remain (Stuck w.state) found
      → IsOrderly w
      → IsOrderly (notify w found)
  notify-IsOrderly w none k h = h
  notify-IsOrderly w (some (p, rest)) k h =
      fewer-IsOrderly w.state w.parked (not_bulk w.parked ++ rest)
        (Every-append (Stuck w.state) (not_bulk w.parked) rest
          (Every-bulk (Stuck w.state) w.parked h.waiting).1 k)
        h

  -- The bulk events of the parked ones.
  bulk-Every :
      (Q : ActorEvent P → Type 0) (es : List (ActorEvent P)) → Every Q es → Every Q (bulk es)
  bulk-Every Q es h =
      Every-map (λ e. (is_bulk e ≡ true) × Q e) Q (bulk es) (λ e k. k.1) (Every-bulk Q es h).0

  output_woken-IsOrderly :
      (full : Bool) (w : World P) (i : ℕ)
      → IsOrderly w
      → IsOrderly (notified w i (if full then one_output else nobody))
  output_woken-IsOrderly false w i h = h
  output_woken-IsOrderly true w i h =
      notify-IsOrderly w (pick i (bulk w.parked))
        (Remain-pick (Stuck w.state) i (bulk w.parked)
          (bulk-Every (Stuck w.state) w.parked h.waiting))
        h

  -- After a pop of the control lane of `s`, whose lane was full or not.
  control_woken-IsOrderly :
      (was_full : Bool) (s : MailboxState P) (w : World P) (i : ℕ)
      → is_full s control ≡ was_full
      → s.closed ≡ w.state.closed
      → length w.state.control ≤ control_lane + 1
      → roomed w.state.output ≤ output_lane
      → Every (Stuck s) w.parked
      → IsOrderly (notified w i (if was_full then all_control else nobody))
  control_woken-IsOrderly true s w i f c a b h = record {
    control_bound = a;
    output_bound = b;
    waiting =
        Every-map (λ e. (is_bulk e ≡ true) × Stuck s e) (Stuck w.state) (bulk w.parked)
          (λ e k. record { alive = sym c ∙ k.1.alive; tight = λ n. clash (is_bulk e) k.0 n })
          (Every-bulk (Stuck s) w.parked h).0;
  }
  control_woken-IsOrderly false s w i f c a b h = record {
    control_bound = a;
    output_bound = b;
    waiting =
        Every-map (Stuck s) (Stuck w.state) w.parked
          (λ e k. record {
            alive = sym c ∙ k.alive;
            tight = λ n. clash (has_room s e) (below-has_room s e f n) (k.tight n);
          })
          h;
  }

  -- By the lists of the state that an event is received from.
  received-IsOrderly :
      (cs os : List (ActorEvent P)) (senders : ℕ) (shut : Bool)
      (awake parked entered left : List (ActorEvent P)) (i : ℕ)
      → Orderly (record { control = cs; output = os; senders = senders; closed = shut }) parked
      → IsOrderly (
          after_receive
            (record {
              state = record { control = cs; output = os; senders = senders; closed = shut };
              awake = awake;
              parked = parked;
              entered = entered;
              left = left;
            })
            i
            (recv_turn (record { control = cs; output = os; senders = senders; closed = shut })))
  unfolding recv_turn take_event
  received-IsOrderly [] [] senders shut awake parked entered left i h = h
  received-IsOrderly [] (e ∷ os) senders shut awake parked entered left i h =
      output_woken-IsOrderly _ _ i (record {
        control_bound = h.control_bound;
        output_bound = omega (arith, h.output_bound, roomed-tail e os);
        waiting =
            Every-map (Stuck _) (Stuck _) parked
              (λ x k. record { alive = k.alive; tight = tight_mono _ _ x (omega arith) k.tight })
              h.waiting;
      })
  received-IsOrderly (e ∷ cs) os senders shut awake parked entered left i h =
      control_woken-IsOrderly _
        (record { control = e ∷ cs; output = os; senders = senders; closed = shut }) _ i refl refl
        (omega (arith, h.control_bound)) h.output_bound h.waiting

  senders-Orderly :
      (s : MailboxState P) (n : ℕ) (parked : List (ActorEvent P))
      → Orderly s parked
      → Orderly (record s { senders = n }) parked
  senders-Orderly s n parked h = record {
    control_bound = h.control_bound;
    output_bound = h.output_bound;
    waiting =
        Every-map (Stuck s) (Stuck _) parked
          (λ x k. record { alive = k.alive; tight = tight_mono s _ x (omega arith) k.tight })
          h.waiting;
  }

  step-IsOrderly : (w : World P) (c : Choice P) → IsOrderly w → IsOrderly (step w c)
  unfolding step try_send drop_receiver clone_sender drop_sender
  step-IsOrderly w (enter e) h = h
  step-IsOrderly w (attempt e) h =
      attempted-IsOrderly w.state.closed (has_room w.state e) w e refl h
  step-IsOrderly w (turn i) h = taken-IsOrderly w (pick i w.awake) h
  step-IsOrderly w (stir i) h =
      (stirred-IsOrderly w (pick i w.parked) (Remain-pick (Stuck w.state) i w.parked h.waiting) h).0
  step-IsOrderly w (give_up i) h =
      (stirred-IsOrderly w (pick i w.parked) (Remain-pick (Stuck w.state) i w.parked h.waiting) h).1
  step-IsOrderly w (receive i) h =
      received-IsOrderly w.state.control w.state.output w.state.senders w.state.closed w.awake
        w.parked w.entered w.left i h
  step-IsOrderly w hang_up h = record {
    control_bound = h.control_bound;
    output_bound = h.output_bound;
    waiting = tt;
  }
  step-IsOrderly w clone_one h = senders-Orderly w.state (w.state.senders + 1) w.parked h
  step-IsOrderly w drop_one h = senders-Orderly w.state (w.state.senders - 1) w.parked h

  run-IsOrderly : (w : World P) (cs : List (Choice P)) → IsOrderly w → IsOrderly (run w cs)
  unfolding run
  run-IsOrderly w [] h = h
  run-IsOrderly w (c ∷ cs) h = run-IsOrderly (step w c) cs (step-IsOrderly w c h)

-- From an empty mailbox, under any schedule, the control lane holds at most the 256 events of its
-- bound and the one slot past it, the output lane holds at most 32 events besides the ends of
-- streams, whoever is parked is parked while the receiver still lives, and a producer parked on the
-- control lane has no room there: no wake-up of that lane is lost.
pub run-Orderly :
    (P : Type 0) (cs : List (Choice P)) → Orderly (run (start P) cs).state (run (start P) cs).parked
unfolding roomed
run-Orderly P cs =
    run-IsOrderly (start P) cs
      (record { control_bound = omega arith; output_bound = omega arith; waiting = tt })
