-- ===== src/Dgram/Loss/Scan.antt =====
-- crates/dgram/src/loss.rs: the bounded scan of the flight finds what a scan of all of it would.
use braid.Prelude.{
  ℕ, suc, ◌-◌, ◌≤◌, ◌<◌, min, ◌≡◌, refl, sym, ap, ◌∙◌, inl, inr, false, none, List, [], ◌∷◌, ◌++◌,
  arith, ltb, leb, ltb→lt, Bool-cases, take, drop, take-append-drop,
}
use braid.Prelude.Slices.{take-take}
use braid.Dgram.Packet.{Ack}
use braid.Dgram.Loss.{InFlight, covers, partition_point, scan, scan_flight}

-- Numbers ascend for the connection's life: `lo` or more, each larger than the one before.
abbrev pub Ascends : ℕ → List InFlight → Type 0
Ascends lo [] = Unit {0}
Ascends lo (p ∷ ps) = (lo ≤ p.number) × Ascends (suc p.number) ps

abbrev Uncovered : Ack → List InFlight → Type 0
Uncovered ack [] = Unit {0}
Uncovered ack (p ∷ ps) = (covers ack p.number ≡ false) × Uncovered ack ps

covers-high : (ack : Ack) (n : ℕ) → suc ack.largest ≤ n → covers ack n ≡ false
unfolding covers
covers-high ack n h = ground arith

covers-low : (ack : Ack) (n : ℕ) → n < ack.largest - 64 → covers ack n ≡ false
unfolding covers
covers-low ack n h = ground arith

Ascends-Uncovered :
    (ack : Ack) (lo : ℕ) (ps : List InFlight)
    → suc ack.largest ≤ lo
    → Ascends lo ps
    → Uncovered ack ps
Ascends-Uncovered ack lo [] h a = tt
Ascends-Uncovered ack lo (p ∷ ps) h a = (
  covers-high ack p.number (omega (arith, a.0)),
  Ascends-Uncovered ack (suc p.number) ps (omega (arith, a.0)) a.1,
)

scan-Uncovered : (ack : Ack) (ps : List InFlight) → Uncovered ack ps → scan ack ps ≡ (ps, [], none)
unfolding scan
scan-Uncovered ack [] h = refl
scan-Uncovered ack (p ∷ ps) h = rw (scan-Uncovered ack ps h.1, h.0) refl

scan-append_front :
    (ack : Ack) (xs ys : List InFlight)
    → Uncovered ack xs
    → let (kept, taken, newest) = scan ack ys in scan ack (xs ++ ys) ≡ (xs ++ kept, taken, newest)
unfolding scan
scan-append_front ack [] ys h = refl
scan-append_front ack (x ∷ xs) ys h = rw (scan-append_front ack xs ys h.1, h.0) refl

scan-append_back :
    (ack : Ack) (xs ys : List InFlight)
    → Uncovered ack ys
    → let (kept, taken, newest) = scan ack xs in scan ack (xs ++ ys) ≡ (kept ++ ys, taken, newest)
unfolding scan
scan-append_back ack [] ys h = scan-Uncovered ack ys h
scan-append_back ack (x ∷ xs) ys h = elim (Bool-cases (covers ack x.number)) [
  | inl holds ↦ rw (scan-append_back ack xs ys h, holds) refl
  | inr fails ↦ rw (scan-append_back ack xs ys h, fails) refl
]

-- The two bounds of the scan.
abbrev end_of : Ack → List InFlight → ℕ
end_of ack ps = partition_point ps (λ p. leb p.number ack.largest)

abbrev start_of : Ack → List InFlight → ℕ
start_of ack ps = partition_point ps (λ p. ltb p.number (ack.largest - 64))

front-Uncovered : (ack : Ack) (ps : List InFlight) → Uncovered ack (take (start_of ack ps) ps)
unfolding partition_point
front-Uncovered ack [] = tt
front-Uncovered ack (p ∷ ps) = elim (Bool-cases (ltb p.number (ack.largest - 64))) [
  | inl holds ↦
      rw holds
        (covers-low ack p.number (ltb→lt p.number (ack.largest - 64) holds), front-Uncovered ack ps)
  | inr fails ↦ rw fails tt
]

back-Uncovered :
    (ack : Ack) (lo : ℕ) (ps : List InFlight)
    → Ascends lo ps
    → Uncovered ack (drop (end_of ack ps) ps)
unfolding partition_point
back-Uncovered ack lo [] a = tt
back-Uncovered ack lo (p ∷ ps) a = elim (Bool-cases (leb p.number ack.largest)) [
  | inl holds ↦ rw holds (back-Uncovered ack (suc p.number) ps a.1)
  | inr fails ↦ rw fails (
    covers-high ack p.number (ground arith),
    Ascends-Uncovered ack (suc p.number) ps (ground arith) a.1,
  )
]

start-end : (ack : Ack) (ps : List InFlight) → start_of ack ps ≤ end_of ack ps
unfolding partition_point
start-end ack [] = omega arith
start-end ack (p ∷ ps) = ground (arith, start-end ack ps)

-- On a flight that ascends, the scan between the two bounds finds exactly what a scan of the whole
-- flight finds: the same packets arrive, the same stay, and the same send time is sampled.
pub scan_flight-scan :
    (ack : Ack) (lo : ℕ) (flight : List InFlight)
    → Ascends lo flight
    → scan_flight ack flight ≡ scan ack flight
unfolding scan_flight
scan_flight-scan ack lo flight a =
    let start = start_of ack flight in
    let end = end_of ack flight in
    let near = take end flight in
    let fronts : take start near ≡ take start flight =
      take-take start end flight
      ∙ ap (λ k. take k flight) {x = min start end} {y = start}
          (omega (arith, start-end ack flight)) in
    let whole : take start flight ++ drop start near ≡ near =
      ap (λ f. f ++ drop start near) (sym fronts) ∙ take-append-drop start near in
    sym (
      ap (scan ack) (sym (take-append-drop end flight))
      ∙ scan-append_back ack near (drop end flight) (back-Uncovered ack lo flight a)
      ∙ ap
          (λ xs.
            let (kept, taken, newest) = scan ack xs in (kept ++ drop end flight, taken, newest))
          (sym whole)
      ∙ ap (λ r. (r.0 ++ drop end flight, r.1, r.2))
          (scan-append_front ack (take start flight) (drop start near)
            (front-Uncovered ack flight)))
