-- ===== src/Dgram/Loss/Bounds.antt =====
-- crates/dgram/src/loss.rs: what a peer that acknowledges nothing can make this side keep.
use braid.Prelude.{
  ℕ, ◌-◌, ◌≤◌, ap, inl, inr, Bool, true, false, Option, none, some, List, [], ◌∷◌, ◌++◌, arith, ltb,
  Bool-cases, map_or, length, length-drop,
}
use braid.Dgram.Packet.{Ack}
use braid.Dgram.Loss.{
  max_tracked, InFlight, lost, silent, overflowed, WrittenOff, LossDetector, covers, migrated,
  clear, capped, retire, shed, sealed, doom, hush, detect_from, detect, expire, scan, scan_flight,
  forget_old, revive, count_spurious, measure, heard, acknowledged,
}
use braid.Dgram.Loss.Scan.{Ascends, scan_flight-scan}
use braid.Dgram.Loss.Doomed.{choose-all}

pub record Bounded (d : LossDetector) : Type 0 where
  pub flight : length d.sent ≤ max_tracked
  pub register : length d.written_off ≤ 64

capped-length : (ws : List WrittenOff) → length (capped ws) ≤ 64
capped-length ws = omega (arith, length-drop (length ws - 64) ws)

shed-length : (ps : List InFlight) (d : LossDetector) → length (shed ps d).sent ≤ max_tracked
unfolding shed
shed-length [] d = omega arith
shed-length (p ∷ ps) d = elim (Bool-cases (ltb max_tracked (length (p ∷ ps)))) [
  | inl holds ↦ rw holds (shed-length ps (retire d p overflowed))
  | inr fails ↦ rw fails (ground arith)
]

shed-register :
    (ps : List InFlight) (d : LossDetector)
    → length d.written_off ≤ 64
    → length (shed ps d).written_off ≤ 64
unfolding shed retire
shed-register [] d h = h
shed-register (p ∷ ps) d h = elim (Bool-cases (ltb max_tracked (length (p ∷ ps)))) [
  | inl holds ↦ rw holds (
      shed-register ps (retire d p overflowed)
        (capped-length (d.written_off ++ record { number = p.number; cause = overflowed } ∷ [])))
  | inr fails ↦ rw fails h
]

detect_from-Bounded :
    (ps : List InFlight) (d : LossDetector) (now : ℕ) (abandoned : Bool)
    → length ps ≤ max_tracked
    → length d.written_off ≤ 64
    → Bounded (detect_from ps d now abandoned).0
unfolding detect_from hush retire
detect_from-Bounded [] d now abandoned few h = record { flight = omega arith; register = h }
detect_from-Bounded (p ∷ ps) d now abandoned few h =
    choose-all (λ r. Bounded r.0) (doom d p now) _ _ _ (λ _. record { flight = few; register = h })
      (detect_from-Bounded ps (retire d p lost) now abandoned (omega arith)
        (capped-length (d.written_off ++ record { number = p.number; cause = lost } ∷ [])))
      (detect_from-Bounded ps (retire (hush d p) p silent) now true (omega arith)
        (capped-length (d.written_off ++ record { number = p.number; cause = silent } ∷ [])))

detect-Bounded : (d : LossDetector) (now : ℕ) → Bounded d → Bounded (detect d now)
unfolding detect
detect-Bounded d now v =
    let after = detect_from-Bounded d.sent d now false v.flight v.register in
    elim (Bool-cases (detect_from d.sent d now false).1) [
      | inl holds ↦ rw holds (record { flight = after.flight; register = after.register })
      | inr fails ↦ rw fails after
    ]

forget_old-length : (ws : List WrittenOff) (floor : ℕ) → length (forget_old ws floor) ≤ length ws
unfolding forget_old
forget_old-length [] floor = omega arith
forget_old-length (w ∷ ws) floor = ground (arith, forget_old-length ws floor)

revive-length : (ack : Ack) (ws : List WrittenOff) → length (revive ack ws).0 ≤ length ws
unfolding revive
revive-length ack [] = omega arith
revive-length ack (w ∷ ws) = elim (Bool-cases (covers ack w.number)) [
  | inl holds ↦ rw holds (omega (arith, revive-length ack ws))
  | inr fails ↦ rw fails (omega (arith, revive-length ack ws))
]

scan-length : (ack : Ack) (ps : List InFlight) → length (scan ack ps).0 ≤ length ps
unfolding scan
scan-length ack [] = omega arith
scan-length ack (p ∷ ps) = elim (Bool-cases (covers ack p.number)) [
  | inl holds ↦ rw holds (omega (arith, scan-length ack ps))
  | inr fails ↦ rw fails (omega (arith, scan-length ack ps))
]

measure-Bounded :
    (d : LossDetector) (o : Option ℕ) (delay now : ℕ) → Bounded d → Bounded (measure d o delay now)
unfolding measure
measure-Bounded d none delay now v = v
measure-Bounded d (some t) delay now v = record { flight = v.flight; register = v.register }

acknowledged-Bounded :
    (d : LossDetector) (lo : ℕ) (ack : Ack) (now : ℕ)
    → Ascends lo d.sent
    → Bounded d
    → Bounded (acknowledged d ack now).0
unfolding acknowledged count_spurious heard clear
acknowledged-Bounded d lo ack now a v =
    let r = scan_flight ack d.sent in
    let sampled = map_or r.2 none (λ sent. some (now - sent)) in
    let d2 = count_spurious (record (heard d ack) { sent = r.0; arrived = r.1 }) ack in
    detect-Bounded (measure d2 sampled ack.delay now) now (
      measure-Bounded d2 sampled ack.delay now (record {
        flight = omega (
          arith,
          v.flight,
          ap (λ r. length r.0) (scan_flight-scan ack lo d.sent a),
          scan-length ack d.sent,
        );
        register = omega (
          arith,
          v.register,
          forget_old-length d.written_off (ack.largest - 64),
          revive-length ack (forget_old d.written_off (ack.largest - 64)),
        );
      }))

-- Whatever is sealed, acknowledged, expired or migrated, at most 4096 packets are tracked and at
-- most 64 are remembered as written off, if that held before. The numbers of the flight ascend.
pub calls-Bounded :
    (d : LossDetector) (lo : ℕ) (p : InFlight) (ack : Ack) (now : ℕ)
    → Ascends lo d.sent
    → Bounded d
    → Bounded (sealed d p)
      × Bounded (acknowledged d ack now).0
      × Bounded (expire d now)
      × Bounded (migrated d)
unfolding sealed expire migrated clear
calls-Bounded d lo p ack now a v = (
  record {
    flight = shed-length (d.sent ++ p ∷ []) (clear d);
    register = shed-register (d.sent ++ p ∷ []) (clear d) v.register;
  },
  acknowledged-Bounded d lo ack now a v,
  detect-Bounded (clear d) now (record { flight = v.flight; register = v.register }),
  record { flight = v.flight; register = omega arith },
)
