-- ===== src/Dgram/Rtt/Bounds.antt =====
-- crates/dgram/src/loss.rs: what a round-trip sample can do to the estimate.
use braid.Prelude.{
  ℕ, ◌+◌, ◌-◌, ◌*◌, ◌/◌, ◌≤◌, ◌≡◌, inl, inr, ◌||◌, Option, none, some, arith, ltb, leb,
  if◌then◌else◌, Bool-cases, from_millis, from_micros,
}
use braid.Dgram.Rtt.{
  max_ack_delay, rtt_min_window, Rtt, replaces, smooth, adjust, sample, loss_delay, probe_timeout,
}

abbrev pub Within : ℕ → ℕ → Option ℕ → Type 0
Within lo hi none = Unit {0}
Within lo hi (some s) = (lo ≤ s) × (s ≤ hi)

-- The minimum that is kept is no larger than `n`.
abbrev pub LeastBy : ℕ → Option (ℕ × ℕ) → Type 0
LeastBy n none = ⊥
LeastBy n (some (least, since)) = least ≤ n

smooth-Within :
    (lo hi adjusted var : ℕ) (o : Option ℕ)
    → Within lo hi o
    → lo ≤ adjusted
    → adjusted ≤ hi
    → Within lo hi (some (smooth o var adjusted).0)
smooth-Within lo hi adjusted var none w l h = (l, h)
smooth-Within lo hi adjusted var (some s) w l h = (omega arith, omega arith)

replaces-LeastBy :
    (o : Option (ℕ × ℕ)) (adjusted now : ℕ)
    → LeastBy adjusted (if replaces o adjusted now then some (adjusted, now) else o)
replaces-LeastBy none adjusted now = omega arith
replaces-LeastBy (some (least, since)) adjusted now =
    elim (Bool-cases (ltb adjusted least || leb rtt_min_window (now - since))) [
      | inl replaced ↦ rw replaced (omega arith)
      | inr kept ↦ rw kept (ground arith)
    ]

-- Whatever delay the peer claims, a sample counts for at least a microsecond, the minimum is at most
-- the latest sample, and the estimate stays within any range that holds it and the sample.
sample-bounds :
    (r : Rtt) (taken delay now lo hi : ℕ)
    → Within lo hi r.smoothed
    → lo ≤ adjust taken delay
    → adjust taken delay ≤ hi
    → let r' = sample r taken delay now in
      (1 ≤ r'.latest_adjusted)
      × LeastBy r'.latest_adjusted r'.min_adjusted
      × Within lo hi r'.smoothed
unfolding sample
sample-bounds r taken delay now lo hi w l h = (
  omega arith,
  replaces-LeastBy r.min_adjusted (adjust taken delay) now,
  smooth-Within lo hi (adjust taken delay) r.var r.smoothed w l h,
)

-- A packet is given the smoothed trip, the peer's longest delay and a millisecond before silence
-- counts, and an eighth over the smoothed trip and a millisecond before a gap counts as loss.
timeouts-above :
    (r : Rtt) (s : ℕ)
    → r.smoothed ≡ some s
    → (from_micros s + max_ack_delay + from_millis 1 ≤ probe_timeout r)
      × (from_micros (s * 9 / 8) ≤ loss_delay r)
      × (from_millis 1 ≤ loss_delay r)
unfolding probe_timeout loss_delay
timeouts-above r s e = rw e (omega arith, omega arith, omega arith)
