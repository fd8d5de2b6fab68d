-- ===== src/Dgram/Mtu.antt =====
-- crates/dgram/src/mtu.rs: what size of datagram the path carries, found by trying.
pub mod Probe
pub mod Steps
pub mod Range
pub mod Bounds
pub mod Width
pub mod Idle
pub mod Deadline
mod Tests
use braid.Prelude.{
  ℕ, suc, ◌+◌, min, Bool, true, false, not, ◌&&◌, ◌||◌, Option, none, some, List, [], ◌∷◌, ltb, leb,
  ◌==◌, if◌then◌else◌, is_none_or, then_some, drop, usize_max, clamp,
}
use braid.Dgram.Packet.{base_datagram, max_datagram}
use braid.Dgram.Mtu.Probe.{
  candidates, candidate_losses, pmtu_blackhole_losses, pmtu_blackhole_silences, confirm_losses,
  probe_spacing, cooldown, search_retry, Fragmentation, permitted, Search, unproven, asking,
  settled, confirming, cooling, is_unproven, is_confirming, is_over, with_outstanding,
}

pub record Mtu : Type 0 where
  pub plpmtu : ℕ
  pub search : Search
  pub next : ℕ
  pub blackhole : ℕ
  pub silences : ℕ
  pub suspect : ℕ
  pub small_arrived : Bool
  pub fragmentation : Fragmentation

pub first_search : Fragmentation → Search
first_search Fragmentation.refused = unproven
first_search Fragmentation.permitted = settled

pub fresh : Fragmentation → Mtu
fresh f = record {
  plpmtu = base_datagram;
  search = first_search f;
  next = 0;
  blackhole = 0;
  silences = 0;
  suspect = usize_max;
  small_arrived = false;
  fragmentation = f;
}

pub datagram : Mtu → ℕ
datagram m = m.plpmtu

-- The loop of `begin`: the first candidate above the size in force, and its index.
pub first_above : List ℕ → ℕ → ℕ → ℕ × Search
first_above [] index size = (index, settled)
first_above (candidate ∷ rest) index size =
    let later = first_above rest (suc index) size in
    if ltb size candidate then (index, asking candidate none 0 none) else later

pub begin : Mtu → Mtu
begin m =
    let (index, search') = first_above (drop m.next candidates) m.next m.plpmtu in
    record m { next = index; search = search' }

pub proven : Mtu → Mtu
proven m = if is_unproven m.search then begin m else m

pub migrated : Mtu → Mtu
migrated m = fresh m.fragmentation

-- The pause of a search that is over by `now` ends.
pub warm : Mtu → ℕ → Mtu
warm m now = if is_over m.search now then begin m else m

pub offer : Mtu → Search → ℕ → Mtu × Option ℕ
offer m (asking candidate none lost due) now =
    (m, then_some (is_none_or due (λ due. leb due now)) candidate)
offer m (confirming due none lost) now =
    if leb due now
    then (record m { search = confirming (now + probe_spacing) none lost }, some m.plpmtu)
    else (m, none)
offer m s now = (m, none)

pub poll : Mtu → ℕ → Mtu × Option ℕ
poll m now = let m' = warm m now in offer m' m'.search now

pub confirming_now : Mtu → Bool
confirming_now m = is_confirming m.search

pub probing : Mtu → ℕ → Mtu
probing m number = record m { search = with_outstanding m.search number }

pub wakes : Search → Option ℕ
wakes (cooling until) = some until
wakes (asking candidate none lost due) = due
wakes (confirming due none lost) = some due
wakes s = none

pub deadline : Mtu → Option ℕ
deadline m = wakes m.search

pub withdraw : Mtu → Mtu
withdraw m =
    let m' = record m { blackhole = 0; silences = 0; suspect = usize_max; small_arrived = false } in
    if is_confirming m.search then begin m' else m'

-- Whether the packet that arrived is the outstanding probe, and what a candidate's probe proves.
pub answer : Mtu → Search → ℕ → Mtu × Bool
answer m (asking candidate (some outstanding) lost due) number =
    if outstanding == number
    then (record m { plpmtu = min candidate max_datagram; next = m.next + 1 }, true)
    else (m, false)
answer m (confirming due (some outstanding) lost) number = (m, outstanding == number)
answer m s number = (m, false)

pub note_small : Mtu → ℕ → Mtu
note_small m bytes = if leb bytes base_datagram then record m { small_arrived = true } else m

pub acknowledged : Mtu → ℕ → ℕ → Mtu
acknowledged m number bytes =
    let (m', answered) = answer (note_small m bytes) m.search number in
    let m'' = if answered || leb m'.suspect bytes then withdraw m' else m' in
    if answered then begin m'' else m''

pub oversize : Mtu → ℕ → Bool
oversize m bytes = ltb base_datagram bytes && ltb base_datagram m.plpmtu

-- The part of `suspected` behind the count.
pub raise : Mtu → ℕ → Mtu
raise m now =
    if ltb m.blackhole pmtu_blackhole_losses || not m.small_arrived || is_confirming m.search
    then m
    else record m { search = confirming now none 0 }

pub suspected : Mtu → ℕ → ℕ → Mtu
suspected m bytes now =
    if oversize m bytes
    then raise (record m { blackhole = m.blackhole + 1; suspect = min m.suspect bytes }) now
    else m

pub narrowed : Mtu → ℕ → ℕ → Mtu
narrowed m carries now = record m {
  plpmtu = carries;
  blackhole = 0;
  suspect = usize_max;
  small_arrived = false;
  next = 0;
  search = cooling (now + cooldown);
}

pub confirmed_lost : Mtu → ℕ → ℕ → Mtu
confirmed_lost m lost now =
    if ltb lost confirm_losses
    then record m { search = confirming (now + probe_spacing) none lost }
    else if not m.small_arrived
    then withdraw m
    else narrowed m base_datagram now

-- What becomes of the search when the probe `number` did not arrive, and whether it was the probe.
pub gone : Mtu → Search → ℕ → ℕ → Mtu × Bool
gone m (asking candidate (some outstanding) lost due) number now =
    if outstanding == number
    then (
      record m {
        search =
            if leb candidate_losses (lost + 1)
            then cooling (now + search_retry)
            else asking candidate none (lost + 1) (some (now + probe_spacing));
      },
      true,
    )
    else (m, false)
gone m (confirming due (some outstanding) lost) number now =
    if outstanding == number then (confirmed_lost m (lost + 1) now, true) else (m, false)
gone m s number now = (m, false)

pub probe_gone : Mtu → ℕ → ℕ → Mtu × Bool
probe_gone m number now = gone m m.search number now

pub lost : Mtu → ℕ → ℕ → ℕ → Mtu
lost m number bytes now =
    let (m', was_probe) = probe_gone m number now in
    if was_probe then m' else suspected m' bytes now

-- The part of `silent` behind the probe: two silences weigh as one loss.
pub discount : Mtu → ℕ → ℕ → Mtu
discount m bytes now =
    if not (oversize m bytes)
    then m
    else if ltb (m.silences + 1) pmtu_blackhole_silences
    then record m { silences = m.silences + 1 }
    else suspected (record m { silences = 0 }) bytes now

pub silent : Mtu → ℕ → ℕ → ℕ → Mtu
silent m number bytes now =
    let (m', was_probe) = probe_gone m number now in if was_probe then m' else discount m' bytes now

pub forgotten : Mtu → ℕ → ℕ → Mtu
forgotten m number now = (probe_gone m number now).0

pub refused : Mtu → ℕ → ℕ → Mtu
refused m carries now =
    let bounded = clamp carries base_datagram max_datagram in
    if leb m.plpmtu bounded then m else narrowed m bounded now
