-- ===== src/Forward/Timer/Rules.antt =====
-- crates/forward/src/timer.rs: the bounds of the wait, Karn's rule, one fast retransmit a stall.
use braid.Prelude.{
  ℕ, suc, ◌+◌, ◌*◌, ◌^◌, ◌≤◌, min, ◌≡◌, refl, ◌↔◌, Bool, true, none, some, List, [], ◌∷◌, arith,
  if◌then◌else◌, map_or, u32_max,
}
use braid.Forward.Timer.{
  initial, min_wait, max_wait, stalled, repeated, Timer, interval, due, remaining, expired,
  transmitted, acknowledged,
}
use native.Mathlib.Nat.{pow-le-pow_right, mul-le-mul_left}

-- The wait never leaves its range, whatever was measured and however often it was doubled.
pub interval_bounds : (t : Timer) → (min_wait ≤ interval t) × (interval t ≤ max_wait)
unfolding interval
interval_bounds t = omega arith

-- The deadline that the caller sleeps on has come exactly when the timer is due.
due-remaining : (t : Timer) (now : ℕ) → (due t now ≡ true) ↔ (remaining t now ≡ some 0)
unfolding due remaining
due-remaining t now = ground arith

-- What may follow an expiry before bytes are sent for the first time.
pub data Event : Type 0 where
  resent : ℕ → Event
  acked : ℕ → ℕ → Bool → Event

pub apply : Timer → Event → Timer
apply t (resent now) = transmitted t none now
apply t (acked off now owed) = (acknowledged t off now owed).0

pub apply_all : Timer → List Event → Timer
apply_all t [] = t
apply_all t (e ∷ es) = apply_all (apply t e) es

pow2_mono : (m n : ℕ) → m ≤ n → 2 ^ m ≤ 2 ^ n
pow2_mono m n h = pow-le-pow_right {n = 2} (omega arith) h

-- An expiry never shortens the wait.
interval-expired : (t : Timer) → interval t ≤ interval (expired t)
unfolding interval expired
interval-expired t =
    let grown = pow2_mono (min t.attempts 5) (min (min (t.attempts + 1) u32_max) 5) (omega arith) in
    let scaled = mul-le-mul_left (map_or t.srtt initial (λ srtt. srtt * 2)) grown in
    omega (arith, scaled)

-- How many of a run of acknowledgements ask for a fast retransmit.
pub stalls : Timer → List (ℕ × ℕ × Bool) → ℕ
stalls t [] = 0
stalls t ((off, now, owed) ∷ acks) =
    let (t', p) = acknowledged t off now owed in
    let rest = stalls t' acks in elim p [ stalled ↦ suc rest | _ ↦ rest ]

abbrev NoneAbove : ℕ → List (ℕ × ℕ × Bool) → Type 0
NoneAbove n [] = Unit {0}
NoneAbove n ((off, now, owed) ∷ acks) = (off ≤ n) × NoneAbove n acks

acknowledged_below :
    (t : Timer) (off now : ℕ) (owed : Bool)
    → off ≤ t.acked
    → ((acknowledged t off now owed).0.acked ≡ t.acked)
      × ((acknowledged t off now owed).0.retried ≡ true)
      × ((acknowledged t off now owed).1 ≡ (if t.retried then repeated else stalled))
unfolding acknowledged
acknowledged_below t off now owed h = ground arith

stalls-retried :
    (acks : List (ℕ × ℕ × Bool)) (t : Timer)
    → t.retried ≡ true
    → NoneAbove t.acked acks
    → stalls t acks ≡ 0
unfolding stalls
stalls-retried [] t r h = refl
stalls-retried ((off, now, owed) ∷ acks) t r h =
    let (a, r', p) = acknowledged_below t off now owed h.0 in
    let rest = stalls-retried acks (acknowledged t off now owed).0 r' (rw a h.1) in
    ground (arith, rest)

-- A run of acknowledgements that moves nothing asks for at most one fast retransmit.
stalls-once : (acks : List (ℕ × ℕ × Bool)) (t : Timer) → NoneAbove t.acked acks → stalls t acks ≤ 1
unfolding stalls
stalls-once [] t h = omega arith
stalls-once ((off, now, owed) ∷ acks) t h =
    let (a, r', p) = acknowledged_below t off now owed h.0 in
    let rest = stalls-retried acks (acknowledged t off now owed).0 r' (rw a h.1) in
    ground (arith, rest)
