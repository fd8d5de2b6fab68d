-- ===== src/Dgram/Congestion/Tests.antt =====
-- crates/dgram/src/congestion.rs: the controller on concrete calls.
use braid.Prelude.{◌≤◌, ◌≡◌, refl, List, [], ◌∷◌, arith, usize_max}
use braid.Dgram.Congestion.{fresh, remember, halve, lost, spurious}
use braid.Dgram.Congestion.Range.{
  Call, seals, acknowledges, loses, revives, collapses, run, Valid, run-Ranged,
}
use braid.Dgram.Congestion.Episode.{lose_all, episode-undone}
use braid.Dgram.Rtt
use braid.Dgram.Loss.{Limited}

abbrev calls : List Call
calls =
    seals 1200 0
    ∷ acknowledges 1200 0 Rtt.fresh Limited.window
    ∷ loses 1200 3 5
    ∷ revives
    ∷ collapses 9
    ∷ []

run-Ranged_example : Valid 1200 (run (fresh 1200) calls)
run-Ranged_example = run-Ranged 1200 calls (omega arith)

halved : (lost (fresh 1200) 1200 3 5).window ≡ 6000
unfolding lost halve remember fresh
halved = refl

-- Two more packets of the flight are lost after the first.
episode-undone_example :
    let d = lose_all (lost (fresh 1200) 1200 3 5) ((1200, 2) ∷ (1200, 4) ∷ []) 6 in
    (d.window ≡ 6000) × ((spurious d).window ≡ 12000) × (usize_max ≤ (spurious d).ssthresh)
unfolding fresh
episode-undone_example =
    episode-undone (fresh 1200) 1200 3 5 ((1200, 2) ∷ (1200, 4) ∷ []) 6 refl (omega arith)
      (omega arith)
