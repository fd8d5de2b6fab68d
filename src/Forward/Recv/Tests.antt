-- ===== src/Forward/Recv/Tests.antt =====
-- crates/forward/src/recv.rs: the receiver on concrete segments.
use braid.Prelude.{ℕ, ◌+◌, ◌≤◌, ◌≡◌, refl, true, false, none, some, List, [], ◌∷◌, arith, length}
use braid.Forward.Wire.{max_ack_runs, SackRun, absolute, accepted, contradiction}
use braid.Forward.Piece.{IsSegment}
use braid.Forward.Recv.{
  Receiver, admits, find, insert, held_past, settle_end, declare, recycle, place, drain, drain_held,
  place_fresh, accept, receive, on_data,
}
use braid.Forward.Recv.Deliver.{Delivers, on_data-Delivers}
use braid.Forward.Recv.Advance.{on_data-advances}
use braid.Forward.Recv.Memory.{Bounded, on_data-Bounded}
use braid.Forward.Recv.Order.{total, total-insert, find-insert}
use braid.Forward.Recv.Answer.{held_runs}
use braid.Forward.Recv.Answer.Merge.{AllCovered}
use braid.Forward.Recv.Answer.Runs.{held_runs-covered}

abbrev log : List ℕ
log = 11 ∷ 12 ∷ 13 ∷ 14 ∷ []

-- An allocator that reserves what it is asked for.
abbrev reserved : Receiver → List ℕ → ℕ
reserved r b = length b

-- Byte 13 has overtaken byte 12.
abbrev gapped : Receiver
gapped = record {
  next = 1;
  ready = 11 ∷ [];
  held = (2, 13 ∷ []) ∷ [];
  held_bytes = 1;
  spare = [];
  fin = none;
  finished = false;
  ack_owed = true;
}

gapped-Delivers : Delivers log [] gapped
gapped-Delivers = record {
  same = refl;
  while_open = λ _. omega arith;
  when_closed = λ e. cc;
  declared = λ e. cc;
  ends = tt;
  parts = (record { inside = omega arith; same = refl }, tt);
  clean = tt;
}

abbrev middle : List ℕ
middle = 12 ∷ []

middle-IsSegment : IsSegment log 1 false middle
middle-IsSegment = record { piece = record { inside = omega arith; same = refl }; end = λ e. cc }

gap_closes : (on_data reserved gapped 1 false middle).0.ready ≡ 11 ∷ 12 ∷ 13 ∷ []
unfolding on_data receive declare accept place_fresh admits drain_held drain place recycle
    settle_end
gap_closes = refl

end_behind_held : (on_data reserved gapped 2 true []).1 ≡ contradiction
unfolding on_data receive declare held_past
end_behind_held = refl

on_data-Delivers_example :
    ((on_data reserved gapped 1 false middle).1 ≡ accepted)
    × Delivers log [] (on_data reserved gapped 1 false middle).0
    × ((on_data reserved gapped 1 false middle).0.fin ≡ none)
on_data-Delivers_example =
    on_data-Delivers log (omega arith) reserved [] gapped 1 false middle gapped-Delivers
      middle-IsSegment

on_data-advances_example :
    (2 ≤ (on_data reserved gapped 1 false middle).0.next)
    × ((on_data reserved gapped 1 false middle).0.ack_owed ≡ true)
on_data-advances_example =
    on_data-advances reserved log [] gapped 1 false middle (omega arith) gapped-Delivers
      middle-IsSegment (omega arith) (omega arith)

gapped-Bounded : Bounded gapped
gapped-Bounded = omega arith

on_data-Bounded_example : Bounded (on_data reserved gapped 7 true middle).0
on_data-Bounded_example = on_data-Bounded reserved gapped 7 true middle gapped-Bounded

find-insert_example : find 2 (insert 5 middle gapped.held) ≡ some (13 ∷ [])
unfolding find
find-insert_example = find-insert 5 2 0 middle gapped.held (omega arith)

total-insert_example : total (insert 2 log gapped.held) + 1 ≡ 5
unfolding find
total-insert_example = total-insert 2 0 log gapped.held (omega arith)

held_runs-covered_example :
    (runs : List SackRun) × (held_runs gapped ≡ some runs)
    × (length runs ≤ max_ack_runs)
    × AllCovered gapped.held (absolute 1 runs)
held_runs-covered_example = held_runs-covered gapped
