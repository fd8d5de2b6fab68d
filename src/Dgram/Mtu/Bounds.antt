-- ===== src/Dgram/Mtu/Bounds.antt =====
-- crates/dgram/src/mtu.rs: the bounds of the width, over any sequence of calls.
use braid.Prelude.{
  ℕ, ◌+◌, ◌≤◌, ◌≡◌, refl, inl, inr, false, none, some, List, [], ◌∷◌, arith, ltb, leb, ◌==◌,
  Bool-cases,
}
use braid.Dgram.Packet.{base_datagram, max_datagram}
use braid.Dgram.Mtu.{
  Mtu, fresh, begin, migrated, warm, poll, probing, withdraw, answer, note_small, acknowledged,
  oversize, gone, probe_gone, lost, discount, silent, forgotten,
}
use braid.Dgram.Mtu.Probe.{
  candidate_losses, pmtu_blackhole_silences, Fragmentation, Search, unproven, asking, settled,
  confirming, cooling,
}
use braid.Dgram.Mtu.Steps.{
  Call, proves, migrates, polls, probes, arrives, loses, hears_nothing, forgets, refuses, apply,
  run,
}
use braid.Dgram.Mtu.Range.{
  Fits, Valid, begin-Valid, fresh-Valid, proven-Valid, warm-Valid, offer-Valid,
  with_outstanding-Fits, withdraw-Valid, refused-Valid, suspected-Valid, confirmed_lost-Valid,
}

withdraw-plpmtu : (m : Mtu) → (withdraw m).plpmtu ≡ m.plpmtu
unfolding withdraw begin
withdraw-plpmtu m = ground arith

-- An answered probe leaves a width in range; any other packet leaves all as it was.
answer-range :
    (m : Mtu) (s : Search) (number : ℕ)
    → Valid m
    → Fits m.plpmtu s
    → (base_datagram ≤ (answer m s number).0.plpmtu) × ((answer m s number).0.plpmtu ≤ max_datagram)
unfolding answer
answer-range m unproven n v f = (v.low, v.high)
answer-range m (asking c none l d) n v f = (v.low, v.high)
answer-range m settled n v f = (v.low, v.high)
answer-range m (confirming d none l) n v f = (v.low, v.high)
answer-range m (confirming d (some o) l) n v f = (v.low, v.high)
answer-range m (cooling t) n v f = (v.low, v.high)
answer-range m (asking c (some o) l d) n v f = (ground (arith, v.low), ground (arith, v.high))

answer-same :
    (m : Mtu) (s : Search) (number : ℕ) → (answer m s number).1 ≡ false → (answer m s number).0 ≡ m
unfolding answer
answer-same m unproven n e = refl
answer-same m (asking c none l d) n e = refl
answer-same m settled n e = refl
answer-same m (confirming d none l) n e = refl
answer-same m (confirming d (some o) l) n e = refl
answer-same m (cooling t) n e = refl
answer-same m (asking c (some o) l d) n e = elim (Bool-cases (o == n)) [
  | inl holds ↦ absurd (ground arith)
  | inr fails ↦ rw fails refl
]

note_small-Valid : (m : Mtu) (bytes : ℕ) → Valid m → Valid (note_small m bytes)
unfolding note_small
note_small-Valid m bytes v = elim (Bool-cases (leb bytes base_datagram)) [
  | inl holds ↦ rw holds (record { low = v.low; high = v.high; fits = v.fits })
  | inr fails ↦ rw fails v
]

note_small-plpmtu : (m : Mtu) (bytes : ℕ) → (note_small m bytes).plpmtu ≡ m.plpmtu
unfolding note_small
note_small-plpmtu m bytes = ground arith

acknowledged-Valid : (m : Mtu) (number bytes : ℕ) → Valid m → Valid (acknowledged m number bytes)
unfolding acknowledged
acknowledged-Valid m number bytes v =
    let noted = note_small-Valid m bytes v in
    let r = answer (note_small m bytes) m.search number in
    let range =
      answer-range (note_small m bytes) m.search number noted
        (rw (note_small-plpmtu m bytes) v.fits) in
    elim (Bool-cases r.1) [
      | inl answered ↦ rw answered (
          begin-Valid (withdraw r.0) (omega (arith, withdraw-plpmtu r.0, range))
            (omega (arith, withdraw-plpmtu r.0, range)))
      | inr other ↦ rw other (
          rw (answer-same (note_small m bytes) m.search number other)
            (elim (Bool-cases (leb (note_small m bytes).suspect bytes)) [
              | inl holds ↦ rw holds (withdraw-Valid _ noted)
              | inr fails ↦ rw fails noted
            ]))
    ]

gone-Valid :
    (m : Mtu) (s : Search) (number now : ℕ)
    → Valid m
    → Fits m.plpmtu s
    → Valid (gone m s number now).0
unfolding gone
gone-Valid m unproven n now v f = v
gone-Valid m (asking c none l d) n now v f = v
gone-Valid m settled n now v f = v
gone-Valid m (confirming d none l) n now v f = v
gone-Valid m (cooling t) n now v f = v
gone-Valid m (asking c (some o) l d) n now v f = elim (Bool-cases (o == n)) [
  | inl holds ↦ rw holds (elim (Bool-cases (leb candidate_losses (l + 1))) [
    | inl enough ↦ rw enough (record { low = v.low; high = v.high; fits = tt })
    | inr again ↦ rw again (record { low = v.low; high = v.high; fits = (f.0, f.1, ground arith) })
  ])
  | inr fails ↦ rw fails v
]
gone-Valid m (confirming d (some o) l) n now v f = elim (Bool-cases (o == n)) [
  | inl holds ↦ rw holds (confirmed_lost-Valid m (l + 1) now v f.0)
  | inr fails ↦ rw fails v
]

lost-Valid : (m : Mtu) (number bytes now : ℕ) → Valid m → Valid (lost m number bytes now)
unfolding lost probe_gone
lost-Valid m number bytes now v =
    let after = gone-Valid m m.search number now v v.fits in
    elim (Bool-cases (gone m m.search number now).1) [
      | inl holds ↦ rw holds after
      | inr fails ↦ rw fails (suspected-Valid _ bytes now after)
    ]

discount-Valid : (m : Mtu) (bytes now : ℕ) → Valid m → Valid (discount m bytes now)
unfolding discount
discount-Valid m bytes now v = elim (Bool-cases (oversize m bytes)) [
  | inr small ↦ rw small v
  | inl large ↦ rw large (elim (Bool-cases (ltb (m.silences + 1) pmtu_blackhole_silences)) [
    | inl holds ↦ rw holds (record { low = v.low; high = v.high; fits = v.fits })
    | inr fails ↦
        rw fails
          (suspected-Valid _ bytes now (record { low = v.low; high = v.high; fits = v.fits }))
  ])
]

silent-Valid : (m : Mtu) (number bytes now : ℕ) → Valid m → Valid (silent m number bytes now)
unfolding silent probe_gone
silent-Valid m number bytes now v =
    let after = gone-Valid m m.search number now v v.fits in
    elim (Bool-cases (gone m m.search number now).1) [
      | inl holds ↦ rw holds after
      | inr fails ↦ rw fails (discount-Valid _ bytes now after)
    ]

pub apply-Valid : (m : Mtu) (c : Call) → Valid m → Valid (apply m c)
unfolding apply migrated poll probing forgotten probe_gone
apply-Valid m proves v = proven-Valid m v
apply-Valid m migrates v = fresh-Valid m.fragmentation
apply-Valid m (polls now) v =
    offer-Valid (warm m now) (warm m now).search now (warm-Valid m now v) (warm-Valid m now v).fits
apply-Valid m (probes number) v = record {
  low = v.low;
  high = v.high;
  fits = with_outstanding-Fits m.plpmtu m.search number v.fits;
}
apply-Valid m (arrives number bytes) v = acknowledged-Valid m number bytes v
apply-Valid m (loses number bytes now) v = lost-Valid m number bytes now v
apply-Valid m (hears_nothing number bytes now) v = silent-Valid m number bytes now v
apply-Valid m (forgets number now) v = gone-Valid m m.search number now v v.fits
apply-Valid m (refuses carries now) v = refused-Valid m carries now v

run-Valid_from : (m : Mtu) (cs : List Call) → Valid m → Valid (run m cs)
unfolding run
run-Valid_from m [] v = v
run-Valid_from m (c ∷ cs) v = run-Valid_from (apply m c) cs (apply-Valid m c v)

-- Whatever a connection reports, the width in force stays between the base size and the largest
-- datagram, a candidate under search is larger than the width in force and at most the largest
-- datagram, a narrowing is only questioned above the base size, and no probe has been lost twice.
pub run-Valid : (f : Fragmentation) (cs : List Call) → Valid (run (fresh f) cs)
run-Valid f cs = run-Valid_from (fresh f) cs (fresh-Valid f)
