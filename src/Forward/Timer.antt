-- ===== src/Forward/Timer.antt =====
-- crates/forward/src/timer.rs: when the head of a forwarded stream is owed another copy.
pub mod Rules
mod Tests
use braid.Prelude.{
  ℕ, ◌+◌, ◌-◌, ◌*◌, ◌/◌, ◌^◌, min, Bool, true, false, Option, none, some, ltb, leb, if◌then◌else◌,
  is_none, is_some_and, map_or, then_some, u32_max, clamp, from_millis, from_secs, saturating_mul,
}

abbrev pub initial : ℕ
initial = from_millis 250

abbrev pub min_wait : ℕ
min_wait = from_millis 50

abbrev pub max_wait : ℕ
max_wait = from_secs 2

pub data Progress : Type 0 where
  advanced stalled repeated : Progress

pub record Timer : Type 0 where
  pub srtt : Option ℕ
  pub sample : Option (ℕ × ℕ)
  pub waiting : Option ℕ
  pub attempts : ℕ
  pub acked : ℕ
  pub retried : Bool

unfoldable pub fresh : Timer
fresh = record {
  srtt = none;
  sample = none;
  waiting = none;
  attempts = 0;
  acked = 0;
  retried = false;
}

unfoldable pub arm : Timer → ℕ → Timer
arm t now = if is_none t.waiting then record t { waiting = some now } else t

unfoldable pub interval : Timer → ℕ
interval t =
    let base = map_or t.srtt initial (λ srtt. srtt * 2) in
    clamp (saturating_mul base (2 ^ min t.attempts 5)) min_wait max_wait

unfoldable pub due : Timer → ℕ → Bool
due t now = is_some_and t.waiting (λ since. leb (interval t) (now - since))

unfoldable pub remaining : Timer → ℕ → Option ℕ
remaining t now = map_or t.waiting none (λ since. some (interval t - (now - since)))

unfoldable pub expired : Timer → Timer
expired t = record t { attempts = min (t.attempts + 1) u32_max; waiting = none; sample = none }

-- The sample of a timer that was armed: the first copy of bytes never sent before.
unfoldable pub take_sample : Timer → Option ℕ → ℕ → Timer
take_sample t none now = t
take_sample t (some end) now = if is_none t.sample then record t { sample = some (end, now) } else t

unfoldable pub transmitted : Timer → Option ℕ → ℕ → Timer
unfolding take_sample arm
transmitted t fresh_end now = take_sample (arm t now) fresh_end now

-- At one eighth.
unfoldable pub observe : Timer → ℕ → Timer
observe t sample = record t {
  srtt = some (map_or t.srtt sample (λ srtt. srtt * 7 / 8 + sample / 8));
}

unfoldable pub settle_sample : Timer → Option (ℕ × ℕ) → ℕ → ℕ → Timer
unfolding observe
settle_sample t none off now = t
settle_sample t (some (end, sent)) off now =
    if leb end off then record (observe t (now - sent)) { sample = none } else t

unfoldable pub progress : Timer → ℕ → Timer × Progress
progress t off =
    if ltb t.acked off
    then (record t { acked = off; attempts = 0; retried = false }, advanced)
    else if t.retried
    then (t, repeated)
    else (record t { retried = true }, stalled)

unfoldable pub acknowledged : Timer → ℕ → ℕ → Bool → Timer × Progress
unfolding settle_sample progress
acknowledged t off now owed =
    let (t', p) = progress (settle_sample t t.sample off now) off in
    (record t' { waiting = then_some owed now; sample = if owed then t'.sample else none }, p)
