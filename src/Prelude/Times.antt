-- ===== src/Prelude/Times.antt =====
-- Clock readings and spans of time, in nanoseconds. `Instant::saturating_duration_since` and
-- `Duration::saturating_sub` are `-` of ℕ; a `Duration` times or over a `u32` is exact, rounded
-- down to the nanosecond; the conversions to whole microseconds round down.
use Prim.Native.Nat.{ℕ, ◌+◌, ◌-◌, ◌*◌, ◌/◌, ◌^◌, min}
use braid.Prelude.Words.{u64_max}

abbrev pub duration_max : ℕ
duration_max = (2 ^ 64 - 1) * 1_000_000_000 + 999_999_999

abbrev pub from_millis : ℕ → ℕ
from_millis n = n * 1_000_000

abbrev pub from_secs : ℕ → ℕ
from_secs n = n * 1_000_000_000

abbrev pub saturating_mul : ℕ → ℕ → ℕ
saturating_mul d k = min (d * k) duration_max

abbrev pub from_mins : ℕ → ℕ
from_mins n = from_secs (n * 60)

-- `micros` of crates/dgram/src/loss.rs, and back.
abbrev pub micros : ℕ → ℕ
micros d = min (d / 1_000) u64_max

abbrev pub from_micros : ℕ → ℕ
from_micros n = n * 1_000
