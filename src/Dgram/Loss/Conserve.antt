-- ===== src/Dgram/Loss/Conserve.antt =====
-- crates/dgram/src/loss.rs: no byte of the flight is lost or counted twice, and the memory is
-- bounded.
use braid.Prelude.{
  ℕ, ◌+◌, ◌-◌, ◌≡◌, refl, ap, ◌∙◌, inl, inr, Bool, true, false, Option, none, some, List, [], ◌∷◌,
  ◌++◌, arith, Bool-cases, map_or,
}
use braid.Dgram.Packet.{Ack}
use braid.Dgram.Loss.{
  InFlight, Arrived, Cause, lost, silent, overflowed, Gone, LossDetector, covers, clear, retire,
  doom, hush, choose, detect_from, detect, expire, scan, scan_flight, count_spurious, measure,
  heard, acknowledged,
}
use braid.Dgram.Loss.Scan.{Ascends, scan_flight-scan}

abbrev pub flight_bytes : List InFlight → ℕ
flight_bytes [] = 0
flight_bytes (p ∷ ps) = p.bytes + flight_bytes ps

abbrev pub gone_bytes : List Gone → ℕ
gone_bytes [] = 0
gone_bytes (g ∷ gs) = g.bytes + gone_bytes gs

flight_bytes-append :
    (xs ys : List InFlight) → flight_bytes (xs ++ ys) ≡ flight_bytes xs + flight_bytes ys
flight_bytes-append [] ys = omega arith
flight_bytes-append (x ∷ xs) ys = omega (arith, flight_bytes-append xs ys)

gone_bytes-append : (xs ys : List Gone) → gone_bytes (xs ++ ys) ≡ gone_bytes xs + gone_bytes ys
gone_bytes-append [] ys = omega arith
gone_bytes-append (x ∷ xs) ys = omega (arith, gone_bytes-append xs ys)

-- The bytes that a detector still answers for after a call: in flight, or given up in that call.
abbrev pub kept_bytes : LossDetector → ℕ
kept_bytes d = flight_bytes d.sent + gone_bytes d.gone

retire_gone :
    (d : LossDetector) (p : InFlight) (c : Cause)
    → gone_bytes (retire d p c).gone ≡ gone_bytes d.gone + p.bytes
unfolding retire
retire_gone d p c = omega (
  arith,
  gone_bytes-append d.gone
      (record { number = p.number; bytes = p.bytes; sent = p.sent; cause = c } ∷ []),
)

choose_kept :
    (o : Option Cause) (a b c : LossDetector × Bool) (n : ℕ)
    → kept_bytes a.0 ≡ n
    → kept_bytes b.0 ≡ n
    → kept_bytes c.0 ≡ n
    → kept_bytes (choose o a b c).0 ≡ n
unfolding choose
choose_kept none a b c n p q r = p
choose_kept (some lost) a b c n p q r = q
choose_kept (some silent) a b c n p q r = r
choose_kept (some overflowed) a b c n p q r = r

detect_from_kept :
    (ps : List InFlight) (d : LossDetector) (now : ℕ) (abandoned : Bool)
    → kept_bytes (detect_from ps d now abandoned).0 ≡ flight_bytes ps + gone_bytes d.gone
unfolding detect_from hush
detect_from_kept [] d now abandoned = omega arith
detect_from_kept (p ∷ ps) d now abandoned =
    choose_kept (doom d p now) (record d { sent = p ∷ ps }, abandoned)
      (detect_from ps (retire d p lost) now abandoned)
      (detect_from ps (retire (hush d p) p silent) now true)
      (flight_bytes (p ∷ ps) + gone_bytes d.gone) refl
      (omega (arith, detect_from_kept ps (retire d p lost) now abandoned, retire_gone d p lost))
      (omega (
        arith,
        detect_from_kept ps (retire (hush d p) p silent) now true,
        retire_gone (hush d p) p silent,
      ))

detect_kept : (d : LossDetector) (now : ℕ) → kept_bytes (detect d now) ≡ kept_bytes d
unfolding detect
detect_kept d now = elim (Bool-cases (detect_from d.sent d now false).1) [
  | inl holds ↦ rw holds (detect_from_kept d.sent d now false)
  | inr fails ↦ rw fails (detect_from_kept d.sent d now false)
]

scan_bytes :
    (ack : Ack) (ps : List InFlight)
    → flight_bytes (scan ack ps).0 + flight_bytes (scan ack ps).1 ≡ flight_bytes ps
unfolding scan
scan_bytes ack [] = omega arith
scan_bytes ack (p ∷ ps) = elim (Bool-cases (covers ack p.number)) [
  | inl holds ↦ rw holds (omega (arith, scan_bytes ack ps))
  | inr fails ↦ rw fails (omega (arith, scan_bytes ack ps))
]

measure_kept :
    (d : LossDetector) (o : Option ℕ) (delay now : ℕ)
    → kept_bytes (measure d o delay now) ≡ kept_bytes d
unfolding measure
measure_kept d none delay now = refl
measure_kept d (some t) delay now = refl

measure_arrived :
    (d : LossDetector) (o : Option ℕ) (delay now : ℕ) → (measure d o delay now).arrived ≡ d.arrived
unfolding measure
measure_arrived d none delay now = refl
measure_arrived d (some t) delay now = refl

choose_arrived :
    (o : Option Cause) (a b c : LossDetector × Bool) (n : List Arrived)
    → a.0.arrived ≡ n
    → b.0.arrived ≡ n
    → c.0.arrived ≡ n
    → (choose o a b c).0.arrived ≡ n
unfolding choose
choose_arrived none a b c n p q r = p
choose_arrived (some lost) a b c n p q r = q
choose_arrived (some silent) a b c n p q r = r
choose_arrived (some overflowed) a b c n p q r = r

detect_from_arrived :
    (ps : List InFlight) (d : LossDetector) (now : ℕ) (abandoned : Bool)
    → (detect_from ps d now abandoned).0.arrived ≡ d.arrived
unfolding detect_from hush retire
detect_from_arrived [] d now abandoned = refl
detect_from_arrived (p ∷ ps) d now abandoned =
    choose_arrived (doom d p now) _ _ _ d.arrived refl
      (detect_from_arrived ps (retire d p lost) now abandoned)
      (detect_from_arrived ps (retire (hush d p) p silent) now true)

detect_arrived : (d : LossDetector) (now : ℕ) → (detect d now).arrived ≡ d.arrived
unfolding detect
detect_arrived d now = elim (Bool-cases (detect_from d.sent d now false).1) [
  | inl holds ↦ rw holds (detect_from_arrived d.sent d now false)
  | inr fails ↦ rw fails (detect_from_arrived d.sent d now false)
]

-- An acknowledgement accounts for every byte of the flight exactly once: it arrived, it was given
-- up in this call, or it is still in flight. The numbers of the flight ascend.
pub acknowledged-bytes :
    (d : LossDetector) (lo : ℕ) (ack : Ack) (now : ℕ)
    → Ascends lo d.sent
    → let d' = (acknowledged d ack now).0 in
      flight_bytes d'.arrived + gone_bytes d'.gone + flight_bytes d'.sent ≡ flight_bytes d.sent
unfolding acknowledged count_spurious heard clear
acknowledged-bytes d lo ack now a =
    let r = scan_flight ack d.sent in
    let sampled = map_or r.2 none (λ sent. some (now - sent)) in
    let d2 = count_spurious (record (heard d ack) { sent = r.0; arrived = r.1 }) ack in
    let d3 = measure d2 sampled ack.delay now in
    omega (
      arith,
      ap flight_bytes (detect_arrived d3 now ∙ measure_arrived d2 sampled ack.delay now),
      detect_kept d3 now,
      measure_kept d2 sampled ack.delay now,
      ap (λ r. flight_bytes r.0 + flight_bytes r.1) (scan_flight-scan ack lo d.sent a),
      scan_bytes ack d.sent,
    )

-- So does an expiry, by which nothing arrives.
expire-bytes :
    (d : LossDetector) (now : ℕ)
    → let d' = expire d now in
      (d'.arrived ≡ []) × (gone_bytes d'.gone + flight_bytes d'.sent ≡ flight_bytes d.sent)
unfolding expire clear
expire-bytes d now = (detect_arrived (clear d) now, omega (arith, detect_kept (clear d) now))
