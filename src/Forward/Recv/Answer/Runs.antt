-- ===== src/Forward/Recv/Answer/Runs.antt =====
-- crates/forward/src/recv.rs: the runs of an acknowledgement name only bytes that are held.
use braid.Prelude.{
  ℕ, ◌+◌, ◌-◌, ◌≤◌, ◌<◌, ◌≡◌, false, Option, none, some, List, [], ◌∷◌, arith, then_some, length,
  length-append, saturating_add,
}
use braid.Forward.Wire.{max_ack_runs, SackRun, sack_runs, absolute}
use braid.Forward.Recv.{Held, Receiver}
use braid.Forward.Recv.Answer.{
  push_run, Walk, close_run, extend_open, extend_run, merge, close_last, last_run, held_runs,
  answer, poll_ack,
}
use braid.Forward.Recv.Answer.Merge.{AllCovered, walked, walked-covered}

-- The walk stops at the bound, so there are never too many runs.
length-close_run : (w : Walk) (run : ℕ × ℕ) → length (close_run w run).runs ≤ length w.runs + 1
unfolding close_run push_run
length-close_run w (s, e) =
    ground (arith, length-append w.runs (record { gap = s - w.cursor; len = e - s } ∷ []))

length-extend_open :
    (w : Walk) (o : Option (ℕ × ℕ)) (off end : ℕ)
    → length (extend_open w o off end).runs ≤ length w.runs + 1
unfolding extend_open
length-extend_open w none off end = omega arith
length-extend_open w (some run) off end = ground (arith, length-close_run w run)

length-merge :
    (rest : Held) (w : Walk)
    → length w.runs < max_ack_runs
    → length (merge rest w).runs ≤ max_ack_runs
unfolding merge extend_run
length-merge [] w h = omega arith
length-merge ((off, h) ∷ rest) w lt =
    let w' = extend_open w w.open_run off (saturating_add off (length h)) in
    ground (
      arith,
      length-extend_open w w.open_run off (saturating_add off (length h)),
      length-merge rest w',
    )

length-close_last :
    (w : Walk) (o : Option (ℕ × ℕ))
    → length w.runs ≤ max_ack_runs
    → length (close_last w o).runs ≤ max_ack_runs
unfolding close_last
length-close_last w none le = le
length-close_last w (some run) le = ground (arith, length-close_run w run)

length-last_run : (r : Receiver) → length (last_run (walked r)).runs ≤ max_ack_runs
unfolding last_run
length-last_run r =
    length-close_last (walked r) (walked r).open_run
      (length-merge r.held (record { runs = []; cursor = r.next; open_run = none }) (omega arith))

-- An acknowledgement never holds too many runs, so `held_runs` does not panic.
pub held_runs-total : (r : Receiver) → held_runs r ≡ some (last_run (walked r)).runs
unfolding held_runs sack_runs
held_runs-total r = ground (arith, length-last_run r)

-- Each byte that an acknowledgement names past its gap is a byte that the receiver holds, and
-- making one never panics.
pub held_runs-covered :
    (r : Receiver)
    → (runs : List SackRun) × (held_runs r ≡ some runs)
      × (length runs ≤ max_ack_runs)
      × AllCovered r.held (absolute r.next runs)
held_runs-covered r =
    ((last_run (walked r)).runs, held_runs-total r, length-last_run r, walked-covered r)

-- Making an acknowledgement always succeeds: it is made exactly if one is owed, names `next` and the
-- room behind it, and changes nothing but that none is owed any more.
pub poll_ack-total :
    (r : Receiver)
    → let r' = record r { ack_owed = false } in
      poll_ack r ≡ some (r', then_some r.ack_owed (answer r' (last_run (walked r')).runs))
unfolding poll_ack
poll_ack-total r = ground (arith, held_runs-total (record r { ack_owed = false }))
