-- ===== src/Dgram/Congestion/Pacer/Ready.antt =====
-- crates/dgram/src/congestion.rs: the instant that the pacer names is late enough.
use braid.Prelude.{
  ℕ, ◌+◌, ◌-◌, ◌*◌, ◌/◌, ◌≤◌, ◌<◌, min, max, ◌≡◌, sym, ap, inl, inr, Option, none, some, arith,
  ◌==◌, if◌then◌else◌, Bool-cases, map_or, u64_max, usize_max, micros, from_micros,
}
use braid.Dgram.Congestion.Pacer.{
  pace_numerator, pace_denominator, initial_pace, Pacer, gained, available_since, available,
  div_ceil, wait, ready,
}
use mathlib.Core.Path.{subst}
use native.Mathlib.Nat.{lt-div-mul-add, div-mul-le_self, le-div_iff_mul-le}

-- Never more than a burst is released at once.
available_le :
    (p : Pacer) (o : Option ℕ) (now window burst : ℕ) (srtt : Option ℕ)
    → available_since p o now window burst srtt ≤ burst
unfolding available_since
available_le p none now window burst srtt = omega arith
available_le p (some r) now window burst srtt = omega arith

-- Waiting a little longer adds the microseconds waited.
micros-add : (d w : ℕ) → (d + from_micros w) / 1_000 ≡ d / 1_000 + w
micros-add d w = omega arith

div_ceil-enough : (a b : ℕ) → 0 < b → a ≤ div_ceil a b * b
div_ceil-enough a b pos = omega (arith, lt-div-mul-add {a = a + (b - 1)} {b = b} pos)

-- At `k` tokens per `m` microseconds, the tokens that are short are there once their time, rounded
-- up, has passed.
rate_enough :
    (e k m short : ℕ) → 0 < k → 0 < m → e * k / m + short ≤ (e + div_ceil (m * short) k) * k / m
rate_enough e k m short posk posm =
    let waited = div_ceil-enough (m * short) k posk in
    (le-div_iff_mul-le {k = m} {x = e * k / m + short} {y = (e + div_ceil (m * short) k) * k}
        posm).1
      (grind (arith, waited, div-mul-le_self (e * k) m))

abbrev pub HasTrip : Option ℕ → Type 0
HasTrip none = Unit {0}
HasTrip (some srtt) = 1 ≤ micros srtt

gained_enough :
    (e window short : ℕ) (srtt : Option ℕ)
    → 0 < window
    → HasTrip srtt
    → gained e window srtt + short ≤ gained (e + wait short window srtt) window srtt
unfolding gained wait
gained_enough e window short none pos trip =
    rate_enough e window (micros initial_pace) short pos (omega arith)
gained_enough e window short (some srtt) pos trip =
    let m = pace_denominator * max (micros srtt) 1 in
    let rate = rate_enough e (pace_numerator * window) m short (grind arith) (grind arith) in
    let apart : (x : ℕ) → x * (pace_numerator * window) ≡ x * pace_numerator * window =
      λ x. grind arith in
    let exact : m * short ≡ micros srtt * pace_denominator * short = grind arith in
    let due = micros srtt * pace_denominator * short in
    subst
      (λ t.
        t / m + short ≤ (e + div_ceil due (pace_numerator * window)) * pace_numerator * window / m)
      (apart e)
      (subst (λ t. e * (pace_numerator * window) / m + short ≤ t / m)
        (apart (e + div_ceil due (pace_numerator * window)))
        (subst
          (λ t.
            e * (pace_numerator * window) / m + short
            ≤ (e + div_ceil t (pace_numerator * window)) * (pace_numerator * window) / m)
          exact rate))

waited_enough :
    (p : Pacer) (r now bytes window burst : ℕ) (srtt : Option ℕ)
    → 0 < window
    → HasTrip srtt
    → bytes ≤ burst
    → burst ≤ usize_max
    → r ≤ now
    → let short = bytes - available_since p (some r) now window burst srtt in
      now + from_micros (min (wait short (max window 1) srtt) u64_max) ≤ u64_max
      → bytes
        ≤ available_since p
            (some r)
            (now + from_micros (min (wait short (max window 1) srtt) u64_max))
            window
            burst
            srtt
unfolding available_since
waited_enough p r now bytes window burst srtt pos trip fits small forward within =
    let short = bytes - available_since p (some r) now window burst srtt in
    let some_window : max window 1 ≡ window = omega arith in
    let w = wait short (max window 1) srtt in
    let e = micros (now - r) in
    let later : micros (now + from_micros (min w u64_max) - r) ≡ e + w = omega arith in
    let more : gained e window srtt + short ≤ gained (e + w) window srtt =
      subst (λ k. gained e window srtt + short ≤ gained (e + wait short k srtt) window srtt)
        (sym some_window) (gained_enough e window short srtt pos trip) in
    let there = ap (λ k. gained k window srtt) later in omega (arith, more, there)

since_opening :
    (p : Pacer) (at bytes window burst : ℕ) (srtt : Option ℕ)
    → bytes ≤ burst
    → bytes ≤ available_since p none at window burst srtt
unfolding available_since
since_opening p at bytes window burst srtt fits = fits

since_enough :
    (p : Pacer) (o : Option ℕ) (now bytes window burst : ℕ) (srtt : Option ℕ)
    → 0 < window
    → HasTrip srtt
    → bytes ≤ burst
    → burst ≤ usize_max
    → map_or o 0 (λ r. r) ≤ now
    → let short = bytes - available_since p o now window burst srtt in
      let at =
        if short == 0
        then now
        else now + from_micros (min (wait short (max window 1) srtt) u64_max) in
      at ≤ u64_max → bytes ≤ available_since p o at window burst srtt
since_enough p none now bytes window burst srtt pos trip fits small forward within =
    since_opening p _ bytes window burst srtt fits
since_enough p (some r) now bytes window burst srtt pos trip fits small forward within =
    let short = bytes - available_since p (some r) now window burst srtt in
    let at = now + from_micros (min (wait short (max window 1) srtt) u64_max) in
    elim (Bool-cases (short == 0)) [
      | inl enough ↦ rw enough (ground arith)
      | inr missing ↦ rw missing (
          waited_enough p r now bytes window burst srtt pos trip fits small forward
            (subst (λ b. (if b then now else at) ≤ u64_max) missing within))
    ]

-- At the instant that `ready` names the bytes may leave, and a burst is never exceeded: the window
-- is not empty, the round trip, if measured, is at least a microsecond, the bytes fit a burst, and
-- the clock has not gone back and stays within 64 bits.
pub ready-enough :
    (p : Pacer) (now bytes window burst : ℕ) (srtt : Option ℕ)
    → 0 < window
    → HasTrip srtt
    → bytes ≤ burst
    → burst ≤ usize_max
    → map_or p.refilled 0 (λ r. r) ≤ now
    → ready p now bytes window burst srtt ≤ u64_max
    → (bytes ≤ available p (ready p now bytes window burst srtt) window burst srtt)
      × (available p (ready p now bytes window burst srtt) window burst srtt ≤ burst)
unfolding ready available
ready-enough p now bytes window burst srtt pos trip fits small forward within = (
  since_enough p p.refilled now bytes window burst srtt pos trip fits small forward within,
  available_le p p.refilled _ window burst srtt,
)
