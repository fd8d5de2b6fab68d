-- ===== src/Dgram/Mtu/Idle.antt =====
-- crates/dgram/src/mtu.rs: a connection whose probes would prove nothing sends none.
use braid.Prelude.{
  ℕ, ◌≡◌, refl, sym, ap, ◌∙◌, inl, inr, false, none, List, [], ◌∷◌, arith, leb, if◌then◌else◌,
  Bool-cases, clamp,
}
use braid.Dgram.Packet.{base_datagram, max_datagram}
use braid.Dgram.Mtu.{
  Mtu, first_search, fresh, begin, proven, migrated, warm, offer, poll, probing, wakes, deadline,
  withdraw, answer, note_small, acknowledged, oversize, suspected, gone, probe_gone, lost, discount,
  silent, forgotten, refused,
}
use braid.Dgram.Mtu.Probe.{Fragmentation, settled, is_unproven, is_over, with_outstanding}
use braid.Dgram.Mtu.Steps.{
  Call, proves, migrates, polls, probes, arrives, loses, hears_nothing, forgets, refuses, apply,
  run,
}
use mathlib.Core.Path.{subst}

record Idle (m : Mtu) : Type 0 where
  still : m.search ≡ settled
  base : m.plpmtu ≡ base_datagram
  kept : m.fragmentation ≡ Fragmentation.permitted

refused-Idle : (m : Mtu) (carries now : ℕ) → Idle m → refused m carries now ≡ m
unfolding refused
refused-Idle m carries now v =
    elim (Bool-cases (leb m.plpmtu (clamp carries base_datagram max_datagram))) [
      | inl holds ↦ rw holds refl
      | inr fails ↦ absurd (ground (arith, v.base))
    ]

suspected-Idle : (m : Mtu) (bytes now : ℕ) → Idle m → suspected m bytes now ≡ m
unfolding suspected oversize
suspected-Idle m bytes now v = rw (v.base) (ground arith)

discount-Idle : (m : Mtu) (bytes now : ℕ) → Idle m → discount m bytes now ≡ m
unfolding discount oversize
discount-Idle m bytes now v = rw (v.base) (ground arith)

acknowledged-Idle : (m : Mtu) (number bytes : ℕ) → Idle m → Idle (acknowledged m number bytes)
unfolding acknowledged note_small answer withdraw
acknowledged-Idle m number bytes v = record {
  still = rw (v.still) (ground (arith, v.still));
  base = rw (v.still) (ground (arith, v.base));
  kept = rw (v.still) (ground (arith, v.kept));
}

warm-Idle : (m : Mtu) (now : ℕ) → Idle m → warm m now ≡ m
unfolding warm
warm-Idle m now v = ap (λ s. if is_over s now then begin m else m) v.still

poll-Idle : (m : Mtu) (now : ℕ) → Idle m → poll m now ≡ (m, none)
unfolding poll offer
poll-Idle m now v =
    ap (λ m'. offer m' m'.search now) (warm-Idle m now v) ∙ ap (λ s. offer m s now) v.still

gone-Idle : (m : Mtu) (number now : ℕ) → Idle m → probe_gone m number now ≡ (m, false)
unfolding probe_gone gone
gone-Idle m number now v = ap (λ s. gone m s number now) v.still

proven-Idle : (m : Mtu) → Idle m → proven m ≡ m
unfolding proven
proven-Idle m v = ap (λ s. if is_unproven s then begin m else m) v.still

apply-Idle : (m : Mtu) (c : Call) → Idle m → Idle (apply m c)
unfolding apply migrated fresh first_search probing lost silent forgotten
apply-Idle m proves v = rw (proven-Idle m v) v
apply-Idle m migrates v = rw (v.kept) (record { still = refl; base = refl; kept = refl })
apply-Idle m (polls now) v = subst Idle (sym (ap (λ p. p.0) (poll-Idle m now v))) v
apply-Idle m (probes number) v = record {
  still = ap (λ s. with_outstanding s number) v.still;
  base = v.base;
  kept = v.kept;
}
apply-Idle m (arrives number bytes) v = acknowledged-Idle m number bytes v
apply-Idle m (loses number bytes now) v =
    rw (gone-Idle m number now v) (rw (suspected-Idle m bytes now v) v)
apply-Idle m (hears_nothing number bytes now) v =
    rw (gone-Idle m number now v) (rw (discount-Idle m bytes now v) v)
apply-Idle m (forgets number now) v = subst Idle (sym (ap (λ p. p.0) (gone-Idle m number now v))) v
apply-Idle m (refuses carries now) v = rw (refused-Idle m carries now v) v

run-Idle : (m : Mtu) (cs : List Call) → Idle m → Idle (run m cs)
unfolding run
run-Idle m [] v = v
run-Idle m (c ∷ cs) v = run-Idle (apply m c) cs (apply-Idle m c v)

-- Where the kernel may cut an oversize datagram up, no sequence of calls makes the search offer a
-- probe, name a deadline or leave the base size.
permitted-never :
    (cs : List Call) (now : ℕ)
    → let m = run (fresh Fragmentation.permitted) cs in
      ((poll m now).1 ≡ none) × (deadline m ≡ none) × (m.plpmtu ≡ base_datagram)
unfolding deadline wakes fresh first_search
permitted-never cs now =
    let v =
      run-Idle (fresh Fragmentation.permitted) cs
        (record { still = refl; base = refl; kept = refl }) in
    (ap (λ p. p.1) (poll-Idle _ now v), ap wakes v.still, v.base)
