-- ===== src/Dgram/Congestion.antt =====
-- crates/dgram/src/congestion.rs: how much may be in flight, and how fast it may leave.
use braid.Prelude.{
  ℕ, zero, suc, ◌+◌, ◌-◌, ◌*◌, ◌/◌, min, max, Bool, true, false, ◌&&◌, Option, none, some, ltb, leb,
  if◌then◌else◌, is_some_and, map_or, usize_max, clamp, from_millis,
}
use braid.Dgram.Loss.{Limited, application}
use braid.Dgram.Rtt
use braid.Dgram.Congestion.Pacer
pub mod Pacer
pub mod Range
pub mod Episode
mod Tests

abbrev pub initial_datagrams : ℕ
initial_datagrams = 10

abbrev pub min_datagrams : ℕ
min_datagrams = 2

abbrev pub max_datagrams : ℕ
max_datagrams = 512

abbrev pub burst_datagrams : ℕ
burst_datagrams = 10

abbrev pub overshoot_samples : ℕ
overshoot_samples = 3

abbrev pub overshoot_floor : ℕ
overshoot_floor = from_millis 4

abbrev pub overshoot_ceiling : ℕ
overshoot_ceiling = from_millis 16

pub record Undo : Type 0 where
  pub window : ℕ
  pub ssthresh : ℕ

pub record Congestion : Type 0 where
  pub window : ℕ
  pub ssthresh : ℕ
  pub in_flight : ℕ
  pub credit : ℕ
  pub recovery_start : Option ℕ
  pub undo : Option Undo
  pub datagram : ℕ
  pub overshoot : ℕ
  pub pacer : Pacer.Pacer
  pub srtt : Option ℕ

pub fresh : ℕ → Congestion
fresh datagram = record {
  window = datagram * initial_datagrams;
  ssthresh = usize_max;
  in_flight = 0;
  credit = 0;
  recovery_start = none;
  undo = none;
  datagram = datagram;
  overshoot = 0;
  pacer = Pacer.fresh;
  srtt = none;
}

pub set_datagram : Congestion → ℕ → Congestion
set_datagram c bytes = record c { datagram = bytes }

abbrev pub minimum : Congestion → ℕ
minimum c = let floor = c.datagram * min_datagrams in if ltb floor c.window then floor else c.window

abbrev pub ceiling : Congestion → ℕ
ceiling c = c.datagram * max_datagrams

abbrev pub initial : Congestion → ℕ
initial c = c.datagram * initial_datagrams

abbrev pub burst : Congestion → ℕ
burst c = let most = c.datagram * burst_datagrams in if ltb c.window most then c.window else most

pub writable : Congestion → ℕ → ℕ → Bool
writable c now bytes =
    leb (c.in_flight + bytes) c.window
    && leb bytes (Pacer.available c.pacer now c.window (burst c) c.srtt)

pub ready : Congestion → ℕ → ℕ → Option ℕ
ready c now bytes =
    if ltb c.window (c.in_flight + bytes)
    then none
    else some (Pacer.ready c.pacer now bytes c.window (burst c) c.srtt)

pub sealed : Congestion → ℕ → ℕ → Congestion × Limited
sealed c bytes now = (
  record c {
    in_flight = c.in_flight + bytes;
    pacer = Pacer.spend c.pacer bytes now c.window (burst c) c.srtt;
  },
  if leb (c.in_flight + bytes + c.datagram) c.window then Limited.application else Limited.window,
)

-- The part of `check_overshoot` behind the minimum.
pub judge : Congestion → ℕ → ℕ → Congestion
judge c least latest =
    if leb latest (least + clamp (least / 8) overshoot_floor overshoot_ceiling)
    then record c { overshoot = 0 }
    else if leb overshoot_samples (c.overshoot + 1)
    then record c { overshoot = c.overshoot + 1; ssthresh = max c.window (initial c) }
    else record c { overshoot = c.overshoot + 1 }

pub check_overshoot : Congestion → Rtt.Rtt → Congestion
check_overshoot c rtt =
    map_or (Rtt.minimum_adjusted rtt) c (λ least. judge c least (Rtt.latest_trip rtt))

-- The loop of `acknowledged`: each round takes a window's worth of credit, so `fuel` that is not
-- less than the credit is enough once the window is not empty.
pub avoid : ℕ → Congestion → Congestion
avoid zero c = c
avoid (suc fuel) c =
    let c' = record c {
      credit = c.credit - c.window;
      window = min (c.window + c.datagram) (ceiling c);
    } in
    let later = avoid fuel c' in if leb c.window c.credit then later else c

-- The part of `acknowledged` that grows the window.
pub grow : Congestion → ℕ → Congestion
grow c bytes =
    if ltb c.window c.ssthresh
    then record c { window = min (c.window + bytes) (ceiling c) }
    else avoid (c.credit + bytes) (record c { credit = c.credit + bytes })

abbrev pub is_application : Limited → Bool
is_application Limited.application = true
is_application Limited.window = false

-- What `acknowledged` notes of the arrival before the window is looked at.
pub settle : Congestion → ℕ → ℕ → Rtt.Rtt → Congestion
settle c bytes sent rtt = record c {
  in_flight = c.in_flight - bytes;
  srtt = Rtt.smoothed_trip rtt;
  recovery_start =
      if is_some_and c.recovery_start (λ start. ltb start sent) then none else c.recovery_start;
}

pub acknowledged : Congestion → ℕ → ℕ → Rtt.Rtt → Limited → Congestion
acknowledged c bytes sent rtt limited =
    let c' = settle c bytes sent rtt in
    let c'' = if ltb c'.window c'.ssthresh then check_overshoot c' rtt else c' in
    if is_application limited then c'' else grow c'' bytes

pub remember : Congestion → Congestion
remember c = record c { undo = some (record { window = c.window; ssthresh = c.ssthresh }) }

-- The answer to the first loss of an episode.
pub halve : Congestion → ℕ → Congestion
halve c now =
    let less = max (c.window / 2) (minimum c) in
    record (remember c) {
      recovery_start = some now;
      window = less;
      ssthresh = less;
      credit = 0;
      overshoot = 0;
    }

pub lost : Congestion → ℕ → ℕ → ℕ → Congestion
lost c bytes sent now =
    let c' = record c { in_flight = c.in_flight - bytes } in
    if is_some_and c.recovery_start (λ start. ltb sent start) then c' else halve c' now

pub restore : Congestion → Option Undo → Congestion
restore c none = c
restore c (some undo) = record c {
  undo = none;
  window = min (max c.window undo.window) (ceiling c);
  ssthresh = max c.ssthresh undo.ssthresh;
  recovery_start = none;
  credit = 0;
  overshoot = 0;
}

pub spurious : Congestion → Congestion
spurious c = restore c c.undo

pub abandoned : Congestion → ℕ → Congestion
abandoned c bytes = record c { in_flight = c.in_flight - bytes }

pub collapse : Congestion → ℕ → Congestion
collapse c now = record (remember c) {
  ssthresh = max (c.window / 2) (initial c);
  window = minimum c;
  credit = 0;
  recovery_start = some now;
  overshoot = 0;
}

pub migrated : Congestion → Congestion
migrated c = record c {
  window = initial c;
  ssthresh = usize_max;
  credit = 0;
  recovery_start = none;
  undo = none;
  overshoot = 0;
  srtt = none;
  pacer = Pacer.fresh;
}
