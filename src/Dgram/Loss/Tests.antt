-- ===== src/Dgram/Loss/Tests.antt =====
-- crates/dgram/src/loss.rs: the detector on concrete flights.
use braid.Prelude.{ℕ, ◌+◌, ◌≡◌, refl, false, none, List, [], ◌∷◌, map, arith, from_secs}
use braid.Dgram.Packet.{Ack}
use braid.Dgram.Loss.{
  Limited, InFlight, LossDetector, covers, probe_timeout, migrated, clear, retire, sealed, doom,
  hush, choose, detect_from, detect, expire, partition_point, scan, scan_flight, forget_old, revive,
  count_spurious, measure, heard, acknowledged,
}
use braid.Dgram.Loss.Scan.{scan_flight-scan}
use braid.Dgram.Loss.Conserve.{flight_bytes, gone_bytes, acknowledged-bytes}
use braid.Dgram.Loss.Doomed.{NoneDoomed, expire-NoneDoomed}
use braid.Dgram.Loss.Bounds.{Bounded, calls-Bounded}
use braid.Dgram.Rtt

abbrev packet : ℕ → InFlight
packet n = record { number = n; bytes = 100 + n; sent = n; limited = Limited.window }

abbrev flight : List InFlight
flight = packet 1 ∷ packet 2 ∷ packet 5 ∷ packet 6 ∷ []

-- Packets 5 and 2 arrived.
abbrev ack : Ack
ack = record { largest = 5; delay = 0; map = 4 }

-- Three packets are in flight before the ones that `ack` names.
abbrev busy : LossDetector
busy = record {
  sent = flight;
  rtt = Rtt.fresh;
  largest_acked = none;
  arrived = [];
  gone = [];
  written_off = [];
  silence = 0;
  silent_since = none;
  answered = false;
  persistent = false;
  revived = false;
  losses = 0;
  spurious = 0;
}

scanned : (scan ack flight).1 ≡ packet 2 ∷ packet 5 ∷ []
unfolding scan covers
scanned = refl

-- Packet 1 is overtaken by more than three.
one_lost : map (λ g. g.number) (acknowledged busy ack 9).0.gone ≡ 1 ∷ []
unfolding acknowledged scan_flight partition_point scan covers heard clear count_spurious forget_old
    revive measure detect detect_from choose doom retire hush Rtt.fresh Rtt.sample Rtt.loss_delay
    Rtt.probe_timeout probe_timeout
one_lost = refl

scan_flight-scan_example : scan_flight ack flight ≡ scan ack flight
scan_flight-scan_example = scan_flight-scan ack 0 flight (omega arith)

acknowledged-bytes_example :
    let d' = (acknowledged busy ack 9).0 in
    flight_bytes d'.arrived + gone_bytes d'.gone + flight_bytes d'.sent ≡ 414
acknowledged-bytes_example = acknowledged-bytes busy 0 ack 9 (omega arith)

expire-NoneDoomed_example : NoneDoomed busy (from_secs 5) (expire busy (from_secs 5)).sent
expire-NoneDoomed_example = expire-NoneDoomed busy (from_secs 5) (omega arith)

calls-Bounded_example :
    Bounded (sealed busy (packet 7))
    × Bounded (acknowledged busy ack 9).0
    × Bounded (expire busy 9)
    × Bounded (migrated busy)
calls-Bounded_example =
    calls-Bounded busy 0 (packet 7) ack 9 (omega arith)
      (record { flight = omega arith; register = omega arith })
