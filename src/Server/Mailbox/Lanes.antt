-- ===== src/Server/Mailbox/Lanes.antt =====
-- Each lane is first in, first out, and bounded.
use braid.Prelude.{
  ℕ, ◌≡◌, refl, sym, ap, ◌∙◌, inl, inr, Bool, true, false, not, Option, none, some, List, [], ◌∷◌,
  ◌++◌, append_assoc, if◌then◌else◌, Bool-cases, Option-cases,
}
use braid.Server.Mailbox.{
  ActorEvent, MailboxState, full, closed, refused, pushed, waits, Wake, nobody, one_output,
  all_control, is_bulk, lane, has_room, push, take_event, send_turn, try_send, recv_turn,
  clone_sender, drop_sender, drop_receiver, World, Choice, enter, attempt, turn, stir, give_up,
  receive, hang_up, clone_one, drop_one, found, pick, bulk, not_bulk, after_turn, attempted,
  notified, after_receive, taken_turn, stirred, given_up, step, run, start,
}

module _ {P : Type 0} where
  abbrev All : (ActorEvent P → Bool) → Bool → List (ActorEvent P) → Type 0
  All test b [] = Unit
  All test b (e ∷ es) = (test e ≡ b) × All test b es

  All-snoc :
      (b : Bool) (es : List (ActorEvent P)) (e : ActorEvent P)
      → All is_bulk b es
      → is_bulk e ≡ b
      → All is_bulk b (es ++ (e ∷ []))
  All-snoc b [] e h k = (k, tt)
  All-snoc b (x ∷ es) e h k = (h.0, All-snoc b es e h.1 k)

  bulk-snoc_in :
      (es : List (ActorEvent P)) (e : ActorEvent P)
      → is_bulk e ≡ true
      → (bulk (es ++ (e ∷ [])) ≡ bulk es ++ (e ∷ [])) × (not_bulk (es ++ (e ∷ [])) ≡ not_bulk es)
  unfolding bulk not_bulk
  bulk-snoc_in [] e h = (rw h refl, rw h refl)
  bulk-snoc_in (x ∷ es) e h = elim (Bool-cases (is_bulk x)) [
    | inl b ↦ rw b (ap (◌∷◌ x) (bulk-snoc_in es e h).0, (bulk-snoc_in es e h).1)
    | inr c ↦ rw c ((bulk-snoc_in es e h).0, ap (◌∷◌ x) (bulk-snoc_in es e h).1)
  ]

  bulk-snoc_out :
      (es : List (ActorEvent P)) (e : ActorEvent P)
      → is_bulk e ≡ false
      → (bulk (es ++ (e ∷ [])) ≡ bulk es) × (not_bulk (es ++ (e ∷ [])) ≡ not_bulk es ++ (e ∷ []))
  unfolding bulk not_bulk
  bulk-snoc_out [] e h = (rw h refl, rw h refl)
  bulk-snoc_out (x ∷ es) e h = elim (Bool-cases (is_bulk x)) [
    | inl b ↦ rw b (ap (◌∷◌ x) (bulk-snoc_out es e h).0, (bulk-snoc_out es e h).1)
    | inr c ↦ rw c ((bulk-snoc_out es e h).0, ap (◌∷◌ x) (bulk-snoc_out es e h).1)
  ]

  -- What was pushed to each lane is what was received from it and what it still holds.
  pub record InOrder (s : MailboxState P) (entered left : List (ActorEvent P)) : Type 0 where
    pub outputs : All is_bulk true s.output
    pub controls : All is_bulk false s.control
    pub output_order : bulk left ++ s.output ≡ bulk entered
    pub control_order : not_bulk left ++ s.control ≡ not_bulk entered

  push-InOrder :
      (s : MailboxState P) (e : ActorEvent P) (entered left : List (ActorEvent P))
      → InOrder s entered left
      → InOrder (push s e) (entered ++ (e ∷ [])) left
  unfolding push lane
  push-InOrder s e entered left h = elim (Bool-cases (is_bulk e)) [
    | inl b ↦ rw b (record {
      outputs = All-snoc true s.output e h.outputs b;
      controls = h.controls;
      output_order =
          sym (append_assoc (bulk left) s.output (e ∷ []))
          ∙ ap (λ es. es ++ (e ∷ [])) h.output_order
          ∙ sym (bulk-snoc_in entered e b).0;
      control_order = h.control_order ∙ sym (bulk-snoc_in entered e b).1;
    })
    | inr c ↦ rw c (record {
      outputs = h.outputs;
      controls = All-snoc false s.control e h.controls c;
      output_order = h.output_order ∙ sym (bulk-snoc_out entered e c).0;
      control_order =
          sym (append_assoc (not_bulk left) s.control (e ∷ []))
          ∙ ap (λ es. es ++ (e ∷ [])) h.control_order
          ∙ sym (bulk-snoc_out entered e c).1;
    })
  ]

  abbrev pub IsOrdered : World P → Type 0
  IsOrdered w = InOrder w.state w.entered w.left

  notified-IsOrdered :
      (w : World P) (i : ℕ) (wake : Wake) → IsOrdered w → IsOrdered (notified w i wake)
  notified-IsOrdered w i nobody h = h
  notified-IsOrdered w i all_control h = h
  notified-IsOrdered w i one_output h = elim (Option-cases (pick i (bulk w.parked))) [
    | inl e ↦ rw e h
    | inr found ↦ rw found.1 h
  ]

  -- By the lists of the state that an event is received from.
  received-IsOrdered :
      (cs os : List (ActorEvent P)) (senders : ℕ) (shut : Bool)
      (awake parked entered left : List (ActorEvent P)) (i : ℕ)
      → InOrder
          (record { control = cs; output = os; senders = senders; closed = shut })
          entered
          left
      → IsOrdered (
          after_receive
            (record {
              state = record { control = cs; output = os; senders = senders; closed = shut };
              awake = awake;
              parked = parked;
              entered = entered;
              left = left;
            })
            i
            (recv_turn (record { control = cs; output = os; senders = senders; closed = shut })))
  unfolding recv_turn take_event
  received-IsOrdered [] [] senders shut awake parked entered left i h = h
  received-IsOrdered [] (e ∷ os) senders shut awake parked entered left i h =
      notified-IsOrdered _ i _ (record {
        outputs = h.outputs.1;
        controls = h.controls;
        output_order =
            ap (λ es. es ++ os) (bulk-snoc_in left e h.outputs.0).0
            ∙ append_assoc (bulk left) (e ∷ []) os
            ∙ h.output_order;
        control_order = ap (λ es. es ++ []) (bulk-snoc_in left e h.outputs.0).1 ∙ h.control_order;
      })
  received-IsOrdered (e ∷ cs) os senders shut awake parked entered left i h =
      notified-IsOrdered _ i _ (record {
        outputs = h.outputs;
        controls = h.controls.1;
        output_order = ap (λ es. es ++ os) (bulk-snoc_out left e h.controls.0).0 ∙ h.output_order;
        control_order =
            ap (λ es. es ++ cs) (bulk-snoc_out left e h.controls.0).1
            ∙ append_assoc (not_bulk left) (e ∷ []) cs
            ∙ h.control_order;
      })

  -- By what the two tests of a turn come to.
  tested-IsOrdered :
      (shut room : Bool) (w : World P) (rest : List (ActorEvent P)) (e : ActorEvent P)
      → IsOrdered w
      → IsOrdered (
          after_turn w rest e
            (if shut then refused else if room then pushed (push w.state e) else waits))
  tested-IsOrdered true room w rest e h = h
  tested-IsOrdered false true w rest e h = push-InOrder w.state e w.entered w.left h
  tested-IsOrdered false false w rest e h = h

  taken-IsOrdered :
      (w : World P) (found : Option (ActorEvent P × List (ActorEvent P)))
      → IsOrdered w
      → IsOrdered (taken_turn w found)
  unfolding send_turn
  taken-IsOrdered w none h = h
  taken-IsOrdered w (some (e, rest)) h =
      tested-IsOrdered w.state.closed (has_room w.state e) w rest e h

  attempted-IsOrdered :
      (shut room : Bool) (w : World P) (e : ActorEvent P)
      → IsOrdered w
      → IsOrdered (
          attempted w e (
            if shut
            then (w.state, some closed)
            else if not room
            then (w.state, some full)
            else (push w.state e, none)))
  attempted-IsOrdered true room w e h = h
  attempted-IsOrdered false true w e h = push-InOrder w.state e w.entered w.left h
  attempted-IsOrdered false false w e h = h

  stirred-IsOrdered :
      (w : World P) (found : Option (ActorEvent P × List (ActorEvent P)))
      → IsOrdered w
      → IsOrdered (stirred w found) × IsOrdered (given_up w found)
  stirred-IsOrdered w none h = (h, h)
  stirred-IsOrdered w (some (e, rest)) h = (h, h)

  kept-InOrder :
      (s t : MailboxState P) (entered left : List (ActorEvent P))
      → s.control ≡ t.control
      → s.output ≡ t.output
      → InOrder s entered left
      → InOrder t entered left
  kept-InOrder s t entered left c o h = record {
    outputs = coe 0 1 (i. All is_bulk true (o i)) h.outputs;
    controls = coe 0 1 (i. All is_bulk false (c i)) h.controls;
    output_order = ap (λ es. bulk left ++ es) (sym o) ∙ h.output_order;
    control_order = ap (λ es. not_bulk left ++ es) (sym c) ∙ h.control_order;
  }

  step-IsOrdered : (w : World P) (c : Choice P) → IsOrdered w → IsOrdered (step w c)
  unfolding step try_send drop_receiver clone_sender drop_sender
  step-IsOrdered w (enter e) h = h
  step-IsOrdered w (attempt e) h = attempted-IsOrdered w.state.closed (has_room w.state e) w e h
  step-IsOrdered w (turn i) h = taken-IsOrdered w (pick i w.awake) h
  step-IsOrdered w (stir i) h = (stirred-IsOrdered w (pick i w.parked) h).0
  step-IsOrdered w (give_up i) h = (stirred-IsOrdered w (pick i w.parked) h).1
  step-IsOrdered w (receive i) h =
      received-IsOrdered w.state.control w.state.output w.state.senders w.state.closed w.awake
        w.parked w.entered w.left i h
  step-IsOrdered w hang_up h = kept-InOrder w.state _ w.entered w.left refl refl h
  step-IsOrdered w clone_one h = kept-InOrder w.state _ w.entered w.left refl refl h
  step-IsOrdered w drop_one h = kept-InOrder w.state _ w.entered w.left refl refl h

  run-IsOrdered : (w : World P) (cs : List (Choice P)) → IsOrdered w → IsOrdered (run w cs)
  unfolding run
  run-IsOrdered w [] h = h
  run-IsOrdered w (c ∷ cs) h = run-IsOrdered (step w c) cs (step-IsOrdered w c h)

-- From an empty mailbox, under any schedule of its producers and its receiver, each lane holds only
-- events of its own, and what was received from a lane followed by what it holds is exactly what was
-- pushed to it, in the order of the pushes. So nothing pushed is lost, repeated or overtaken within a
-- lane, and `PtyEnded` is received after every output that was pushed before it.
pub run-InOrder :
    (P : Type 0) (cs : List (Choice P))
    → InOrder (run (start P) cs).state (run (start P) cs).entered (run (start P) cs).left
unfolding bulk not_bulk
run-InOrder P cs =
    run-IsOrdered (start P) cs
      (record { outputs = tt; controls = tt; output_order = refl; control_order = refl })
