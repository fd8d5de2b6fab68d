-- ===== src/Forward/Timer/Tests.antt =====
-- crates/forward/src/timer.rs: the timer on concrete readings.
use braid.Prelude.{◌≤◌, false, some, from_millis}
use braid.Forward.Timer.{min_wait, max_wait, Timer, interval}
use braid.Forward.Timer.Rules.{interval_bounds}

-- Armed at 0, once expired, with a measured round trip of 30 ms.
abbrev armed : Timer
armed = record {
  srtt = some (from_millis 30);
  sample = some (4, 0);
  waiting = some 0;
  attempts = 1;
  acked = 3;
  retried = false;
}

interval_bounds_example : (min_wait ≤ interval armed) × (interval armed ≤ max_wait)
interval_bounds_example = interval_bounds armed
