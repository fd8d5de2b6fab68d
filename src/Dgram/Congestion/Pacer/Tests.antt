-- ===== src/Dgram/Congestion/Pacer/Tests.antt =====
-- crates/dgram/src/congestion.rs: the token bucket on a concrete clock.
use braid.Prelude.{◌≤◌, ◌≡◌, refl, some, arith, from_millis, from_micros}
use braid.Dgram.Congestion.Pacer.{Pacer, gained, available_since, available, wait, ready}
use braid.Dgram.Congestion.Pacer.Ready.{ready-enough}

-- Emptied at 0.
abbrev empty : Pacer
empty = record { tokens = 0; refilled = some 0 }

-- 1200 bytes at five quarters of 12000 bytes in 20 ms.
named : ready empty 0 1200 12000 12000 (some (from_millis 20)) ≡ from_micros 1600
unfolding ready available available_since gained wait
named = refl

ready-enough_example :
    (1200
      ≤ available empty
          (ready empty 0 1200 12000 12000 (some (from_millis 20)))
          12000
          12000
          (some (from_millis 20)))
    × (available empty
          (ready empty 0 1200 12000 12000 (some (from_millis 20)))
          12000
          12000
          (some (from_millis 20))
        ≤ 12000)
unfolding ready available available_since gained wait
ready-enough_example =
    ready-enough empty 0 1200 12000 12000 (some (from_millis 20)) (omega arith) (omega arith)
      (omega arith) (omega arith) (omega arith) (omega arith)
