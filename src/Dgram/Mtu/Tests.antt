-- ===== src/Dgram/Mtu/Tests.antt =====
-- crates/dgram/src/mtu.rs: the search on concrete calls.
use braid.Prelude.{◌≡◌, refl, true, some, List, [], ◌∷◌}
use braid.Dgram.Packet.{base_datagram}
use braid.Dgram.Mtu.{
  Mtu, first_search, fresh, first_above, begin, proven, warm, offer, poll, probing, wakes, deadline,
  withdraw, answer, note_small, acknowledged,
}
use braid.Dgram.Mtu.Probe.{Fragmentation, confirming, cooling}
use braid.Dgram.Mtu.Steps.{Call, proves, polls, probes, arrives, hears_nothing, apply, run}
use braid.Dgram.Mtu.Range.{Valid}
use braid.Dgram.Mtu.Bounds.{run-Valid}
use braid.Dgram.Mtu.Width.{apply-plpmtu}

-- The first candidate is proved, the second is asked.
abbrev calls : List Call
calls = proves ∷ probes 1 ∷ arrives 1 1400 ∷ polls 5 ∷ probes 2 ∷ []

-- Small packets arrive, and the width in force is questioned.
abbrev doubted : Mtu
doubted = record {
  plpmtu = 1400;
  search = confirming 0 (some 9) 1;
  next = 1;
  blackhole = 3;
  silences = 0;
  suspect = 1400;
  small_arrived = true;
  fragmentation = Fragmentation.refused;
}

first_proved : (run (fresh Fragmentation.refused) calls).plpmtu ≡ 1400
unfolding run apply fresh first_search proven begin first_above probing acknowledged note_small
    answer withdraw poll warm offer
first_proved = refl

run-Valid_example : Valid (run (fresh Fragmentation.refused) calls)
run-Valid_example = run-Valid Fragmentation.refused calls

apply-plpmtu_example : (apply doubted (hears_nothing 9 1400 7)).plpmtu ≡ base_datagram
apply-plpmtu_example = apply-plpmtu doubted (hears_nothing 9 1400 7)

abbrev paused : Mtu
paused = record doubted { search = cooling 60 }

deadline-paused : deadline paused ≡ some 60
unfolding deadline wakes
deadline-paused = refl
