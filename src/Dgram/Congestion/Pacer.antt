-- ===== src/Dgram/Congestion/Pacer.antt =====
-- crates/dgram/src/congestion.rs: the token bucket. Its products are `u128`, which cannot overflow
-- on 64-bit factors of this size.
use braid.Prelude.{
  ℕ, ◌+◌, ◌-◌, ◌*◌, ◌/◌, min, max, Option, none, some, ◌==◌, if◌then◌else◌, u64_max, usize_max,
  saturating_add, from_millis, micros, from_micros,
}
pub mod Ready
mod Tests

abbrev pub pace_numerator : ℕ
pace_numerator = 5

abbrev pub pace_denominator : ℕ
pace_denominator = 4

abbrev pub initial_pace : ℕ
initial_pace = from_millis 100

pub record Pacer : Type 0 where
  pub tokens : ℕ
  pub refilled : Option ℕ

unfoldable pub fresh : Pacer
fresh = record { tokens = 0; refilled = none }

-- The tokens that `elapsed` microseconds are worth.
pub gained : ℕ → ℕ → Option ℕ → ℕ
gained elapsed window none = elapsed * window / micros initial_pace
gained elapsed window (some srtt) =
    elapsed * pace_numerator * window / (pace_denominator * max (micros srtt) 1)

pub available_since : Pacer → Option ℕ → ℕ → ℕ → ℕ → Option ℕ → ℕ
available_since p none now window burst srtt = burst
available_since p (some refilled) now window burst srtt =
    min (saturating_add p.tokens (min (gained (micros (now - refilled)) window srtt) usize_max))
      burst

pub available : Pacer → ℕ → ℕ → ℕ → Option ℕ → ℕ
available p now window burst srtt = available_since p p.refilled now window burst srtt

pub spend : Pacer → ℕ → ℕ → ℕ → ℕ → Option ℕ → Pacer
spend p bytes now window burst srtt = record {
  tokens = available p now window burst srtt - bytes;
  refilled = some now;
}

abbrev pub div_ceil : ℕ → ℕ → ℕ
div_ceil a b = (a + (b - 1)) / b

-- The microseconds until `short` more tokens are there.
pub wait : ℕ → ℕ → Option ℕ → ℕ
wait short window none = div_ceil (micros initial_pace * short) window
wait short window (some srtt) =
    div_ceil (micros srtt * pace_denominator * short) (pace_numerator * window)

pub ready : Pacer → ℕ → ℕ → ℕ → ℕ → Option ℕ → ℕ
ready p now bytes window burst srtt =
    let short = bytes - available p now window burst srtt in
    if short == 0 then now else now + from_micros (min (wait short (max window 1) srtt) u64_max)
