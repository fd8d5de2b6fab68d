-- ===== src/Dgram/Loss.antt =====
-- crates/dgram/src/loss.rs: what is in flight, and what did not arrive.
use braid.Prelude.{
  ℕ, suc, ◌+◌, ◌-◌, ◌/◌, ◌%◌, ◌^◌, min, max, Bool, true, false, not, ◌&&◌, ◌||◌, Option, none, some,
  List, [], ◌∷◌, ◌++◌, map, ltb, leb, ◌==◌, if◌then◌else◌, is_some, is_some_and, map_or, unwrap_or,
  then_some, length, take, drop, saturating_mul,
}
use braid.Dgram.Packet.{Ack}
use braid.Dgram.Rtt
pub mod Scan
pub mod Conserve
pub mod Doomed
pub mod Bounds
mod Tests

abbrev pub packet_threshold : ℕ
packet_threshold = 3

abbrev pub max_tracked : ℕ
max_tracked = 4096

abbrev pub max_pto_backoff : ℕ
max_pto_backoff = 6

-- What stopped the sender when a packet was sealed.
pub data Limited : Type 0 where
  application window : Limited

pub record InFlight : Type 0 where
  pub number : ℕ
  pub bytes : ℕ
  pub sent : ℕ
  pub limited : Limited

-- The fields of `Arrived` are those of `InFlight`.
abbrev pub Arrived : Type 0
Arrived = InFlight

pub data Cause : Type 0 where
  lost silent overflowed : Cause

pub record Gone : Type 0 where
  pub number : ℕ
  pub bytes : ℕ
  pub sent : ℕ
  pub cause : Cause

pub record WrittenOff : Type 0 where
  pub number : ℕ
  pub cause : Cause

pub record LossDetector : Type 0 where
  pub sent : List InFlight
  pub rtt : Rtt.Rtt
  pub largest_acked : Option ℕ
  pub arrived : List Arrived
  pub gone : List Gone
  pub written_off : List WrittenOff
  pub silence : ℕ
  pub silent_since : Option ℕ
  pub answered : Bool
  pub persistent : Bool
  pub revived : Bool
  pub losses : ℕ
  pub spurious : ℕ

pub fresh : LossDetector
fresh = record {
  sent = [];
  rtt = Rtt.fresh;
  largest_acked = none;
  arrived = [];
  gone = [];
  written_off = [];
  silence = 0;
  silent_since = none;
  answered = false;
  persistent = false;
  revived = false;
  losses = 0;
  spurious = 0;
}

-- `Acknowledgement::checked`.
pub checked : Ack → ℕ → Option Ack
checked ack next = then_some (ltb ack.largest next) ack

-- Bit `i` of a word.
abbrev pub bit : ℕ → ℕ → Bool
bit word i = word / 2 ^ i % 2 == 1

pub covers : Ack → ℕ → Bool
covers ack number =
    if number == ack.largest
    then true
    else if ltb ack.largest number
    then false
    else leb (ack.largest - number) 64 && bit ack.map (ack.largest - number - 1)

pub probe_timeout : LossDetector → ℕ
probe_timeout d = saturating_mul (Rtt.probe_timeout d.rtt) (2 ^ min d.silence max_pto_backoff)

pub migrated : LossDetector → LossDetector
migrated d = record d {
  rtt = Rtt.fresh;
  silence = 0;
  silent_since = none;
  answered = false;
  largest_acked = none;
  written_off = [];
}

pub tracked : LossDetector → ℕ
tracked d = length d.sent

pub admits : LossDetector → Bool
admits d = ltb (length d.sent) max_tracked

pub clear : LossDetector → LossDetector
clear d = record d { arrived = []; gone = []; persistent = false; revived = false }

abbrev pub is_lost : Cause → Bool
is_lost lost = true
is_lost c = false

abbrev pub is_overflowed : Cause → Bool
is_overflowed overflowed = true
is_overflowed c = false

-- The register forgets its oldest entries past 64.
abbrev pub capped : List WrittenOff → List WrittenOff
capped ws = drop (length ws - 64) ws

pub retire : LossDetector → InFlight → Cause → LossDetector
retire d p cause = record d {
  losses = if is_lost cause then d.losses + 1 else d.losses;
  written_off = capped (d.written_off ++ record { number = p.number; cause = cause } ∷ []);
  gone = d.gone ++ record { number = p.number; bytes = p.bytes; sent = p.sent; cause = cause } ∷ [];
}

-- The loop of `sealed`.
pub shed : List InFlight → LossDetector → LossDetector
shed [] d = record d { sent = [] }
shed (p ∷ ps) d =
    let rest = shed ps (retire d p overflowed) in
    if ltb max_tracked (length (p ∷ ps)) then rest else record d { sent = p ∷ ps }

pub sealed : LossDetector → InFlight → LossDetector
sealed d p = shed (d.sent ++ p ∷ []) (clear d)

-- The cause that `detect` finds for a packet, if it is doomed.
pub doom : LossDetector → InFlight → ℕ → Option Cause
doom d p now =
    let age = now - p.sent in
    let overtaken = is_some_and d.largest_acked (λ l. leb (p.number + packet_threshold) l) in
    let behind = is_some_and d.largest_acked (λ l. ltb p.number l) in
    if overtaken || behind && leb (Rtt.loss_delay d.rtt) age
    then some lost
    else then_some (leb (probe_timeout d) age) silent

-- A run of silence, and whether it is long enough to be the path being gone.
pub hush : LossDetector → InFlight → LossDetector
hush d p =
    let since = unwrap_or d.silent_since p.sent in
    let long =
      not d.answered
      && is_some (Rtt.smoothed_trip d.rtt)
      && leb (Rtt.persistent_congestion_period d.rtt) (p.sent - since) in
    record d {
      silent_since = some since;
      persistent = if long then true else d.persistent;
      answered = if long then true else d.answered;
    }

-- What a round of `detect` comes to: the loop stops, or goes on after a loss or a silence.
pub choose {ℓ} : {A : Type ℓ} → Option Cause → A → A → A → A
choose none stop after_loss after_silence = stop
choose (some lost) stop after_loss after_silence = after_loss
choose (some cause) stop after_loss after_silence = after_silence

-- The loop of `detect`: the detector, and whether anything was abandoned to silence.
pub detect_from : List InFlight → LossDetector → ℕ → Bool → LossDetector × Bool
detect_from [] d now abandoned = (record d { sent = [] }, abandoned)
detect_from (p ∷ ps) d now abandoned =
    choose (doom d p now) (record d { sent = p ∷ ps }, abandoned)
      (detect_from ps (retire d p lost) now abandoned)
      (detect_from ps (retire (hush d p) p silent) now true)

pub detect : LossDetector → ℕ → LossDetector
detect d now =
    let (d', abandoned) = detect_from d.sent d now false in
    if abandoned then record d' { silence = d'.silence + 1 } else d'

pub expire : LossDetector → ℕ → LossDetector
expire d now = detect (clear d) now

-- `partition_point`: how long the first stretch is on which the test holds.
pub partition_point : List InFlight → (InFlight → Bool) → ℕ
partition_point [] test = 0
partition_point (p ∷ ps) test = let rest = partition_point ps test in if test p then suc rest else 0

-- The part of the flight that is scanned: what stays, what arrived, and when the newest one named
-- was sent. Both lists ascend, as `arrived` does once it is reversed.
pub scan : Ack → List InFlight → List InFlight × List Arrived × Option ℕ
scan ack [] = ([], [], none)
scan ack (p ∷ ps) =
    let (kept, taken, newest) = scan ack ps in
    if covers ack p.number
    then (kept, p ∷ taken, if p.number == ack.largest then some p.sent else newest)
    else (p ∷ kept, taken, newest)

pub scan_flight : Ack → List InFlight → List InFlight × List Arrived × Option ℕ
scan_flight ack flight =
    let floor = ack.largest - 64 in
    let end = partition_point flight (λ p. leb p.number ack.largest) in
    let start = partition_point flight (λ p. ltb p.number floor) in
    let (kept, taken, newest) = scan ack (drop start (take end flight)) in
    (take start flight ++ kept ++ drop end flight, taken, newest)

pub forget_old : List WrittenOff → ℕ → List WrittenOff
forget_old [] floor = []
forget_old (w ∷ ws) floor =
    let rest = forget_old ws floor in if ltb w.number floor then rest else w ∷ ws

-- The second loop of `count_spurious`: what stays of the register, how many entries the
-- acknowledgement names, and whether one of them moved a window.
pub revive : Ack → List WrittenOff → List WrittenOff × ℕ × Bool
revive ack [] = ([], 0, false)
revive ack (w ∷ ws) =
    let (kept, count, moved) = revive ack ws in
    if covers ack w.number
    then (kept, suc count, moved || not (is_overflowed w.cause))
    else (w ∷ kept, count, moved)

pub count_spurious : LossDetector → Ack → LossDetector
count_spurious d ack =
    let (kept, count, moved) = revive ack (forget_old d.written_off (ack.largest - 64)) in
    record d { written_off = kept; spurious = d.spurious + count; revived = d.revived || moved }

pub measure : LossDetector → Option ℕ → ℕ → ℕ → LossDetector
measure d none delay now = d
measure d (some taken) delay now = record d { rtt = Rtt.sample d.rtt taken delay now }

-- What an acknowledgement ends: the run of silence; and the watermark it may raise.
pub heard : LossDetector → Ack → LossDetector
heard d ack = record (clear d) {
  silence = 0;
  silent_since = none;
  answered = false;
  largest_acked = some (map_or d.largest_acked ack.largest (λ seen. max seen ack.largest));
}

pub acknowledged : LossDetector → Ack → ℕ → LossDetector × Option ℕ
acknowledged d ack now =
    let (flight, taken, newest) = scan_flight ack d.sent in
    let sampled = map_or newest none (λ sent. some (now - sent)) in
    let d' = count_spurious (record (heard d ack) { sent = flight; arrived = taken }) ack in
    (detect (measure d' sampled ack.delay now) now, sampled)

pub deadline_of : LossDetector → List InFlight → Option ℕ
deadline_of d [] = none
deadline_of d (oldest ∷ ps) =
    let at = oldest.sent + probe_timeout d in
    some (
      if is_some_and d.largest_acked (λ l. ltb oldest.number l)
      then min at (oldest.sent + Rtt.loss_delay d.rtt)
      else at)

pub deadline : LossDetector → Option ℕ
deadline d = deadline_of d d.sent
