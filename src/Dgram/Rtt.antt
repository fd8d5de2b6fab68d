-- ===== src/Dgram/Rtt.antt =====
-- crates/dgram/src/loss.rs: the round trip, estimated in whole microseconds.
use braid.Prelude.{
  ℕ, ◌+◌, ◌-◌, ◌*◌, ◌/◌, max, Bool, true, ◌||◌, Option, none, some, ltb, leb, if◌then◌else◌, map_or,
  unwrap_or, from_millis, from_secs, micros, from_micros,
}
pub mod Bounds
mod Tests

abbrev pub initial_rtt : ℕ
initial_rtt = from_millis 333

abbrev pub min_loss_delay : ℕ
min_loss_delay = from_millis 1

abbrev pub timer_granularity : ℕ
timer_granularity = 1_000

abbrev pub max_ack_delay : ℕ
max_ack_delay = from_millis 25

abbrev pub persistent_congestion_threshold : ℕ
persistent_congestion_threshold = 3

abbrev pub rtt_min_window : ℕ
rtt_min_window = from_secs 10

pub record Rtt : Type 0 where
  pub smoothed : Option ℕ
  pub var : ℕ
  pub latest_adjusted : ℕ
  pub min_adjusted : Option (ℕ × ℕ)

unfoldable pub fresh : Rtt
fresh = record { smoothed = none; var = 0; latest_adjusted = 0; min_adjusted = none }

abbrev pub abs_diff : ℕ → ℕ → ℕ
abs_diff a b = max (a - b) (b - a)

-- Whether a sample takes the place of the minimum.
abbrev pub replaces : Option (ℕ × ℕ) → ℕ → ℕ → Bool
replaces none adjusted now = true
replaces (some (least, since)) adjusted now = ltb adjusted least || leb rtt_min_window (now - since)

-- The smoothed trip and its variation after a sample.
abbrev pub smooth : Option ℕ → ℕ → ℕ → ℕ × ℕ
smooth none var adjusted = (adjusted, adjusted / 2)
smooth (some smoothed) var adjusted =
    ((smoothed * 7 + adjusted) / 8, (var * 3 + abs_diff smoothed adjusted) / 4)

-- What a sample counts for: `delay` off the top, never to zero.
abbrev pub adjust : ℕ → ℕ → ℕ
adjust taken delay = max (micros taken - micros delay) 1

unfoldable pub sample : Rtt → ℕ → ℕ → ℕ → Rtt
sample r taken delay now =
    let adjusted = adjust taken delay in
    let (smoothed', var') = smooth r.smoothed r.var adjusted in
    record {
      smoothed = some smoothed';
      var = var';
      latest_adjusted = adjusted;
      min_adjusted =
          if replaces r.min_adjusted adjusted now then some (adjusted, now) else r.min_adjusted;
    }

unfoldable pub smoothed_trip : Rtt → Option ℕ
smoothed_trip r = map_or r.smoothed none (λ s. some (from_micros s))

pub variation : Rtt → ℕ
variation r = from_micros r.var

unfoldable pub latest_trip : Rtt → ℕ
latest_trip r = from_micros r.latest_adjusted

abbrev pub least_trip : Option (ℕ × ℕ) → Option ℕ
least_trip none = none
least_trip (some (least, since)) = some (from_micros least)

unfoldable pub minimum_adjusted : Rtt → Option ℕ
minimum_adjusted r = least_trip r.min_adjusted

unfoldable pub loss_delay : Rtt → ℕ
loss_delay r =
    let base = map_or r.smoothed (micros initial_rtt) (λ s. max (max s r.latest_adjusted) r.var) in
    max (from_micros (base * 9 / 8)) min_loss_delay

unfoldable pub probe_timeout : Rtt → ℕ
probe_timeout r =
    from_micros (unwrap_or r.smoothed (micros initial_rtt) + max (4 * r.var) timer_granularity)
    + max_ack_delay

unfoldable pub persistent_congestion_period : Rtt → ℕ
unfolding probe_timeout
persistent_congestion_period r = probe_timeout r * persistent_congestion_threshold
