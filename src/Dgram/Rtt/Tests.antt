-- ===== src/Dgram/Rtt/Tests.antt =====
-- crates/dgram/src/loss.rs: the estimate on concrete samples.
use braid.Prelude.{◌≡◌, refl, some, from_millis}
use braid.Dgram.Rtt.{Rtt, sample}

-- Smoothed at 20 ms.
abbrev measured : Rtt
measured = record {
  smoothed = some 20_000;
  var = 10_000;
  latest_adjusted = 20_000;
  min_adjusted = some (20_000, 0);
}

sampled : (sample measured (from_millis 30) (from_millis 2) 5).smoothed ≡ some 21_000
unfolding sample
sampled = refl
