-- ===== src/Dgram/Mtu/Range.antt =====
-- crates/dgram/src/mtu.rs: the width and the search stay within their bounds.
use braid.Prelude.{
  ℕ, zero, suc, ◌≤◌, ◌<◌, ◌≡◌, sym, inl, inr, none, some, List, [], ◌∷◌, arith, ltb, leb, ltb→lt,
  Bool-cases, drop, clamp,
}
use braid.Dgram.Packet.{base_datagram, max_datagram}
use braid.Dgram.Mtu.{
  Mtu, first_search, fresh, first_above, begin, proven, warm, offer, withdraw, oversize, raise,
  suspected, narrowed, confirmed_lost, lost, refused,
}
use braid.Dgram.Mtu.Probe.{
  candidates, candidate_losses, confirm_losses, Fragmentation, Search, unproven, asking, settled,
  confirming, cooling, is_unproven, is_confirming, is_over, with_outstanding,
}

-- What the search says of the size in force: a candidate is larger and a datagram, a question
-- about narrowing is only asked above the base size, and neither has used up its losses.
abbrev pub Fits : ℕ → Search → Type 0
Fits size unproven = Unit {0}
Fits size (asking candidate o lost due) =
    (size < candidate) × (candidate ≤ max_datagram) × (lost < candidate_losses)
Fits size settled = Unit {0}
Fits size (confirming due o lost) = (base_datagram < size) × (lost < confirm_losses)
Fits size (cooling until) = Unit {0}

pub record Valid (m : Mtu) : Type 0 where
  pub low : base_datagram ≤ m.plpmtu
  pub high : m.plpmtu ≤ max_datagram
  pub fits : Fits m.plpmtu m.search

abbrev Datagrams : List ℕ → Type 0
Datagrams [] = Unit {0}
Datagrams (c ∷ cs) = (c ≤ max_datagram) × Datagrams cs

drop-Datagrams : (n : ℕ) (cs : List ℕ) → Datagrams cs → Datagrams (drop n cs)
drop-Datagrams zero cs h = h
drop-Datagrams (suc n) [] h = tt
drop-Datagrams (suc n) (c ∷ cs) h = drop-Datagrams n cs h.1

first_above-Fits :
    (cs : List ℕ) (index size : ℕ) → Datagrams cs → Fits size (first_above cs index size).1
unfolding first_above
first_above-Fits [] index size h = tt
first_above-Fits (c ∷ cs) index size h = elim (Bool-cases (ltb size c)) [
  | inl above ↦ rw above (ltb→lt size c above, h.0, omega arith)
  | inr below ↦ rw below (first_above-Fits cs (suc index) size h.1)
]

pub begin-Valid : (m : Mtu) → base_datagram ≤ m.plpmtu → m.plpmtu ≤ max_datagram → Valid (begin m)
unfolding begin
begin-Valid m low high = record {
  low = low;
  high = high;
  fits =
      first_above-Fits (drop m.next candidates) m.next m.plpmtu
        (drop-Datagrams m.next candidates (omega arith));
}

-- A change of what the search does not read.
abbrev Alike : Mtu → Mtu → Type 0
Alike m n = (m.plpmtu ≡ n.plpmtu) × (m.search ≡ n.search)

Alike-Valid : (m n : Mtu) → Alike m n → Valid m → Valid n
Alike-Valid m n e v = record {
  low = omega (arith, e.0, v.low);
  high = omega (arith, e.0, v.high);
  fits = rw (sym e.0, sym e.1) v.fits;
}

pub fresh-Valid : (f : Fragmentation) → Valid (fresh f)
unfolding fresh first_search
fresh-Valid Fragmentation.refused = record { low = omega arith; high = omega arith; fits = tt }
fresh-Valid Fragmentation.permitted = record { low = omega arith; high = omega arith; fits = tt }

pub proven-Valid : (m : Mtu) → Valid m → Valid (proven m)
unfolding proven
proven-Valid m v = elim (Bool-cases (is_unproven m.search)) [
  | inl holds ↦ rw holds (begin-Valid m v.low v.high)
  | inr fails ↦ rw fails v
]

pub warm-Valid : (m : Mtu) (now : ℕ) → Valid m → Valid (warm m now)
unfolding warm
warm-Valid m now v = elim (Bool-cases (is_over m.search now)) [
  | inl holds ↦ rw holds (begin-Valid m v.low v.high)
  | inr fails ↦ rw fails v
]

pub offer-Valid :
    (m : Mtu) (s : Search) (now : ℕ) → Valid m → Fits m.plpmtu s → Valid (offer m s now).0
unfolding offer
offer-Valid m unproven now v f = v
offer-Valid m (asking c none l d) now v f = v
offer-Valid m (asking c (some o) l d) now v f = v
offer-Valid m settled now v f = v
offer-Valid m (confirming d (some o) l) now v f = v
offer-Valid m (cooling t) now v f = v
offer-Valid m (confirming d none l) now v f = elim (Bool-cases (leb d now)) [
  | inl holds ↦ rw holds (record { low = v.low; high = v.high; fits = f })
  | inr fails ↦ rw fails v
]

pub with_outstanding-Fits :
    (size : ℕ) (s : Search) (number : ℕ) → Fits size s → Fits size (with_outstanding s number)
with_outstanding-Fits size unproven number f = f
with_outstanding-Fits size (asking c o l d) number f = f
with_outstanding-Fits size settled number f = f
with_outstanding-Fits size (confirming d o l) number f = f
with_outstanding-Fits size (cooling t) number f = f

pub withdraw-Valid : (m : Mtu) → Valid m → Valid (withdraw m)
unfolding withdraw
withdraw-Valid m v = elim (Bool-cases (is_confirming m.search)) [
  | inl holds ↦ rw holds (begin-Valid _ v.low v.high)
  | inr fails ↦ rw fails (record { low = v.low; high = v.high; fits = v.fits })
]

narrowed-Valid :
    (m : Mtu) (carries now : ℕ)
    → base_datagram ≤ carries
    → carries ≤ max_datagram
    → Valid (narrowed m carries now)
unfolding narrowed
narrowed-Valid m carries now low high = record { low = low; high = high; fits = tt }

pub refused-Valid : (m : Mtu) (carries now : ℕ) → Valid m → Valid (refused m carries now)
unfolding refused
refused-Valid m carries now v =
    elim (Bool-cases (leb m.plpmtu (clamp carries base_datagram max_datagram))) [
      | inl holds ↦ rw holds v
      | inr fails ↦ rw fails (
          narrowed-Valid m (clamp carries base_datagram max_datagram) now (omega arith)
            (omega arith))
    ]

pub suspected-Valid : (m : Mtu) (bytes now : ℕ) → Valid m → Valid (suspected m bytes now)
unfolding suspected raise oversize
suspected-Valid m bytes now v = record {
  low = ground (arith, v.low);
  high = ground (arith, v.high);
  fits = ground (arith, v.fits);
}

pub confirmed_lost-Valid :
    (m : Mtu) (l now : ℕ) → Valid m → base_datagram < m.plpmtu → Valid (confirmed_lost m l now)
unfolding confirmed_lost narrowed withdraw
confirmed_lost-Valid m l now v above = elim (Bool-cases (ltb l confirm_losses)) [
  | inl holds ↦
      rw holds
        (record { low = v.low; high = v.high; fits = (above, ltb→lt l confirm_losses holds) })
  | inr fails ↦ rw fails (elim (Bool-cases m.small_arrived) [
    | inl small ↦ rw small (narrowed-Valid m base_datagram now (omega arith) (omega arith))
    | inr none_small ↦ rw none_small (withdraw-Valid m v)
  ])
]
