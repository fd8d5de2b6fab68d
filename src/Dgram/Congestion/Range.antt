-- ===== src/Dgram/Congestion/Range.antt =====
-- crates/dgram/src/congestion.rs: the window between its floor and its ceiling.
use braid.Prelude.{
  ℕ, zero, suc, ◌+◌, ◌*◌, ◌≤◌, ◌<◌, ◌≡◌, refl, inl, inr, Bool, true, false, Option, none, some,
  List, [], ◌∷◌, arith, ltb, leb, if◌then◌else◌, Bool-cases, Option-cases, is_some_and,
}
use braid.Dgram.Congestion.{
  min_datagrams, max_datagrams, Undo, Congestion, fresh, sealed, judge, check_overshoot, avoid,
  grow, is_application, settle, acknowledged, remember, halve, lost, restore, spurious, abandoned,
  collapse, migrated,
}
use braid.Dgram.Rtt
use braid.Dgram.Loss.{Limited}

-- What a connection reports to its controller, the size of a datagram aside.
pub data Call : Type 0 where
  seals : (bytes now : ℕ) → Call
  acknowledges : (bytes sent : ℕ) (rtt : Rtt.Rtt) (limited : Limited) → Call
  loses : (bytes sent now : ℕ) → Call
  revives : Call
  abandons : (bytes : ℕ) → Call
  collapses : (now : ℕ) → Call
  migrates : Call

pub apply : Congestion → Call → Congestion
apply c (seals bytes now) = (sealed c bytes now).0
apply c (acknowledges bytes sent rtt limited) = acknowledged c bytes sent rtt limited
apply c (loses bytes sent now) = lost c bytes sent now
apply c revives = spurious c
apply c (abandons bytes) = abandoned c bytes
apply c (collapses now) = collapse c now
apply c migrates = migrated c

pub run : Congestion → List Call → Congestion
run c [] = c
run c (call ∷ calls) = run (apply c call) calls

-- The window is at least two datagrams and at most 512, and less credit than a window is saved up.
pub record Valid (datagram : ℕ) (c : Congestion) : Type 0 where
  pub size : c.datagram ≡ datagram
  pub low : datagram * min_datagrams ≤ c.window
  pub high : c.window ≤ datagram * max_datagrams
  pub spent : c.credit < c.window

-- The part that does not wait for the credit to be spent.
record Ranged (datagram : ℕ) (c : Congestion) : Type 0 where
  size : c.datagram ≡ datagram
  low : datagram * min_datagrams ≤ c.window
  high : c.window ≤ datagram * max_datagrams

avoid-Valid :
    (datagram fuel : ℕ) (c : Congestion)
    → 0 < datagram
    → Ranged datagram c
    → c.credit ≤ fuel
    → Valid datagram (avoid fuel c)
unfolding avoid
avoid-Valid dg zero c pos v few = record {
  size = v.size;
  low = v.low;
  high = v.high;
  spent = omega (arith, v.low);
}
avoid-Valid dg (suc fuel) c pos v few = elim (Bool-cases (leb c.window c.credit)) [
  | inl full ↦ rw full (
      avoid-Valid dg fuel _ pos
        (record {
          size = v.size;
          low = omega (arith, v.low, v.size);
          high = omega (arith, v.high, v.size);
        })
        (ground (arith, v.low)))
  | inr less ↦ rw less (record { size = v.size; low = v.low; high = v.high; spent = ground arith })
]

grow-Valid :
    (datagram : ℕ) (c : Congestion) (bytes : ℕ)
    → 0 < datagram
    → Valid datagram c
    → Valid datagram (grow c bytes)
unfolding grow
grow-Valid dg c bytes pos v = elim (Bool-cases (ltb c.window c.ssthresh)) [
  | inl slow ↦ rw slow (record {
    size = v.size;
    low = omega (arith, v.low, v.size);
    high = omega (arith, v.high, v.size);
    spent = omega (arith, v.spent, v.high, v.size);
  })
  | inr over ↦ rw over (
      avoid-Valid dg (c.credit + bytes) _ pos (record { size = v.size; low = v.low; high = v.high })
        (omega arith))
]

-- A change of what the bounds do not read.
judge-Valid :
    (datagram : ℕ) (c : Congestion) (least latest : ℕ)
    → Valid datagram c
    → Valid datagram (judge c least latest)
unfolding judge
judge-Valid dg c least latest v = record {
  size = ground (arith, v.size);
  low = ground (arith, v.low);
  high = ground (arith, v.high);
  spent = ground (arith, v.spent);
}

check_overshoot-Valid :
    (datagram : ℕ) (c : Congestion) (rtt : Rtt.Rtt)
    → Valid datagram c
    → Valid datagram (check_overshoot c rtt)
unfolding check_overshoot
check_overshoot-Valid dg c rtt v = elim (Option-cases (Rtt.minimum_adjusted rtt)) [
  | inl unmeasured ↦ rw unmeasured v
  | inr (least, measured) ↦ rw measured (judge-Valid dg c least (Rtt.latest_trip rtt) v)
]

settle-Valid :
    (datagram : ℕ) (c : Congestion) (bytes sent : ℕ) (rtt : Rtt.Rtt)
    → Valid datagram c
    → Valid datagram (settle c bytes sent rtt)
unfolding settle
settle-Valid dg c bytes sent rtt v = record {
  size = v.size;
  low = v.low;
  high = v.high;
  spent = v.spent;
}

if-Valid :
    (datagram : ℕ) (test : Bool) (c d : Congestion)
    → Valid datagram c
    → Valid datagram d
    → Valid datagram (if test then c else d)
if-Valid dg true c d v w = v
if-Valid dg false c d v w = w

acknowledged-Valid :
    (datagram : ℕ) (c : Congestion) (bytes sent : ℕ) (rtt : Rtt.Rtt) (limited : Limited)
    → 0 < datagram
    → Valid datagram c
    → Valid datagram (acknowledged c bytes sent rtt limited)
unfolding acknowledged
acknowledged-Valid dg c bytes sent rtt limited pos v =
    let c1 = settle c bytes sent rtt in
    let v1 : Valid dg c1 = settle-Valid dg c bytes sent rtt v in
    let v2 : Valid dg (if ltb c1.window c1.ssthresh then check_overshoot c1 rtt else c1) =
      if-Valid dg (ltb c1.window c1.ssthresh) _ _ (check_overshoot-Valid dg c1 rtt v1) v1 in
    if-Valid dg (is_application limited) _ _ v2 (grow-Valid dg _ bytes pos v2)

lost-Valid :
    (datagram : ℕ) (c : Congestion) (bytes sent now : ℕ)
    → 0 < datagram
    → Valid datagram c
    → Valid datagram (lost c bytes sent now)
unfolding lost halve remember
lost-Valid dg c bytes sent now pos v =
    elim (Bool-cases (is_some_and c.recovery_start (λ start. ltb sent start))) [
      | inl echo ↦ rw echo (record { size = v.size; low = v.low; high = v.high; spent = v.spent })
      | inr news ↦ rw news (record {
        size = v.size;
        low = ground (arith, v.low, v.size);
        high = ground (arith, v.high, v.size);
        spent = ground (arith, v.low, v.size);
      })
    ]

restore-Valid :
    (datagram : ℕ) (c : Congestion) (undo : Option Undo)
    → 0 < datagram
    → Valid datagram c
    → Valid datagram (restore c undo)
unfolding restore
restore-Valid dg c none pos v = v
restore-Valid dg c (some undo) pos v = record {
  size = v.size;
  low = omega (arith, v.low, v.size, v.high);
  high = omega (arith, v.high, v.size);
  spent = omega (arith, v.low, v.size, v.high);
}

apply-Valid :
    (datagram : ℕ) (c : Congestion) (call : Call)
    → 0 < datagram
    → Valid datagram c
    → Valid datagram (apply c call)
unfolding apply sealed spurious abandoned collapse remember migrated
apply-Valid dg c (seals bytes now) pos v = record {
  size = v.size;
  low = v.low;
  high = v.high;
  spent = v.spent;
}
apply-Valid dg c (acknowledges bytes sent rtt limited) pos v =
    acknowledged-Valid dg c bytes sent rtt limited pos v
apply-Valid dg c (loses bytes sent now) pos v = lost-Valid dg c bytes sent now pos v
apply-Valid dg c revives pos v = restore-Valid dg c c.undo pos v
apply-Valid dg c (abandons bytes) pos v = record {
  size = v.size;
  low = v.low;
  high = v.high;
  spent = v.spent;
}
apply-Valid dg c (collapses now) pos v = record {
  size = v.size;
  low = ground (arith, v.low, v.size);
  high = ground (arith, v.high, v.size);
  spent = ground (arith, v.low, v.size);
}
apply-Valid dg c migrates pos v = record {
  size = v.size;
  low = omega (arith, v.size);
  high = omega (arith, v.size);
  spent = omega (arith, v.size);
}

run-Valid_from :
    (datagram : ℕ) (c : Congestion) (calls : List Call)
    → 0 < datagram
    → Valid datagram c
    → Valid datagram (run c calls)
unfolding run
run-Valid_from dg c [] pos v = v
run-Valid_from dg c (call ∷ calls) pos v =
    run-Valid_from dg (apply c call) calls pos (apply-Valid dg c call pos v)

-- Whatever a connection whose datagrams keep their size reports, in any order, the window stays
-- between two and 512 datagrams, and each call leaves less credit than a window, so that the loop
-- that spends it has ended.
pub run-Ranged :
    (datagram : ℕ) (calls : List Call) → 0 < datagram → Valid datagram (run (fresh datagram) calls)
unfolding fresh
run-Ranged dg calls pos =
    run-Valid_from dg (fresh dg) calls pos
      (record { size = refl; low = omega arith; high = omega arith; spent = omega arith })
