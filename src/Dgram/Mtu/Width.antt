-- ===== src/Dgram/Mtu/Width.antt =====
-- crates/dgram/src/mtu.rs: what moves the width in force, and nothing else does.
use braid.Prelude.{
  ℕ, ◌+◌, min, ◌≡◌, refl, ap, ◌∙◌, inl, inr, Bool, true, false, ◌&&◌, ◌||◌, none, some, arith, leb,
  ◌==◌, if◌then◌else◌, Bool-cases, clamp,
}
use braid.Dgram.Packet.{base_datagram, max_datagram}
use braid.Dgram.Mtu.{
  Mtu, fresh, begin, proven, migrated, warm, offer, poll, probing, withdraw, answer, note_small,
  acknowledged, raise, suspected, narrowed, confirmed_lost, gone, probe_gone, lost, discount,
  silent, forgotten, refused,
}
use braid.Dgram.Mtu.Probe.{confirm_losses, Search, unproven, asking, settled, confirming, cooling}
use braid.Dgram.Mtu.Steps.{
  Call, proves, migrates, polls, probes, arrives, loses, hears_nothing, forgets, refuses, apply,
}

-- Whether `number` is a probe of the width in force whose loss is the second in a row.
abbrev pub missed_twice : Search → ℕ → Bool
missed_twice (confirming due (some outstanding) l) number =
    outstanding == number && leb confirm_losses (l + 1)
missed_twice s number = false

-- The width that the arrival of `number` proves, if it is the probe of a candidate.
abbrev pub proved : Search → ℕ → ℕ → ℕ
proved (asking candidate (some outstanding) l due) number size =
    if outstanding == number then min candidate max_datagram else size
proved s number size = size

abbrev pub width_missed : Mtu → ℕ → ℕ
width_missed m number =
    if missed_twice m.search number && m.small_arrived then base_datagram else m.plpmtu

abbrev pub width_after : Mtu → Call → ℕ
width_after m proves = m.plpmtu
width_after m migrates = base_datagram
width_after m (polls now) = m.plpmtu
width_after m (probes number) = m.plpmtu
width_after m (arrives number bytes) = proved m.search number m.plpmtu
width_after m (loses number bytes now) = width_missed m number
width_after m (hears_nothing number bytes now) = width_missed m number
width_after m (forgets number now) = width_missed m number
width_after m (refuses carries now) = min m.plpmtu (clamp carries base_datagram max_datagram)

withdraw_width : (m : Mtu) → (withdraw m).plpmtu ≡ m.plpmtu
unfolding withdraw begin
withdraw_width m = ground arith

warm_width : (m : Mtu) (now : ℕ) → (warm m now).plpmtu ≡ m.plpmtu
unfolding warm begin
warm_width m now = ground arith

offer_width : (m : Mtu) (s : Search) (now : ℕ) → (offer m s now).0.plpmtu ≡ m.plpmtu
unfolding offer
offer_width m unproven now = refl
offer_width m (asking c none l d) now = refl
offer_width m (asking c (some o) l d) now = refl
offer_width m settled now = refl
offer_width m (confirming d (some o) l) now = refl
offer_width m (cooling t) now = refl
offer_width m (confirming d none l) now = ground arith

answer_width :
    (m : Mtu) (s : Search) (number : ℕ) → (answer m s number).0.plpmtu ≡ proved s number m.plpmtu
unfolding answer
answer_width m unproven n = refl
answer_width m (asking c none l d) n = refl
answer_width m (asking c (some o) l d) n = ground arith
answer_width m settled n = refl
answer_width m (confirming d none l) n = refl
answer_width m (confirming d (some o) l) n = refl
answer_width m (cooling t) n = refl

note_width : (m : Mtu) (bytes : ℕ) → (note_small m bytes).plpmtu ≡ m.plpmtu
unfolding note_small
note_width m bytes = ground arith

-- `acknowledged` behind its match.
settled_width :
    (m : Mtu) (answered : Bool) (bytes : ℕ)
    → let m' = if answered || leb m.suspect bytes then withdraw m else m in
      (if answered then begin m' else m').plpmtu ≡ m.plpmtu
unfolding begin
settled_width m true bytes = withdraw_width m
settled_width m false bytes = elim (Bool-cases (leb m.suspect bytes)) [
  | inl holds ↦ rw holds (withdraw_width m)
  | inr fails ↦ rw fails refl
]

suspected_width : (m : Mtu) (bytes now : ℕ) → (suspected m bytes now).plpmtu ≡ m.plpmtu
unfolding suspected raise
suspected_width m bytes now = ground arith

discount_width : (m : Mtu) (bytes now : ℕ) → (discount m bytes now).plpmtu ≡ m.plpmtu
unfolding discount suspected raise
discount_width m bytes now = ground arith

confirmed_width :
    (m : Mtu) (l now : ℕ)
    → (confirmed_lost m l now).plpmtu
      ≡ (if leb confirm_losses l && m.small_arrived then base_datagram else m.plpmtu)
unfolding confirmed_lost narrowed withdraw begin
confirmed_width m l now = ground arith

gone_width :
    (m : Mtu) (s : Search) (number now : ℕ)
    → (gone m s number now).0.plpmtu
      ≡ (if missed_twice s number && m.small_arrived then base_datagram else m.plpmtu)
unfolding gone
gone_width m unproven n now = refl
gone_width m (asking c none l d) n now = refl
gone_width m (asking c (some o) l d) n now = ground arith
gone_width m settled n now = refl
gone_width m (confirming d none l) n now = refl
gone_width m (cooling t) n now = refl
gone_width m (confirming d (some o) l) n now = elim (Bool-cases (o == n)) [
  | inl holds ↦ rw holds (confirmed_width m (l + 1) now)
  | inr fails ↦ rw fails refl
]

-- The width in force moves in no other way than this: the arrival of a candidate's probe proves
-- that candidate; the second loss in a row of a probe of the width in force, however it is
-- reported, lowers it to the base size if small packets still arrive; a refusal by the kernel
-- lowers it to what the path carries, never below the base size and never upwards; a migration
-- resets it; and no other loss, silence, poll or arrival changes it.
pub apply-plpmtu : (m : Mtu) (c : Call) → (apply m c).plpmtu ≡ width_after m c
unfolding apply proven begin migrated fresh poll probing acknowledged lost silent forgotten
    probe_gone refused narrowed
apply-plpmtu m proves = ground arith
apply-plpmtu m migrates = refl
apply-plpmtu m (polls now) = offer_width (warm m now) (warm m now).search now ∙ warm_width m now
apply-plpmtu m (probes number) = refl
apply-plpmtu m (arrives number bytes) =
    settled_width _ (answer (note_small m bytes) m.search number).1 bytes
    ∙ answer_width (note_small m bytes) m.search number
    ∙ ap (proved m.search number) (note_width m bytes)
apply-plpmtu m (loses number bytes now) = elim (Bool-cases (gone m m.search number now).1) [
  | inl holds ↦ rw holds (gone_width m m.search number now)
  | inr fails ↦ rw fails (suspected_width _ bytes now ∙ gone_width m m.search number now)
]
apply-plpmtu m (hears_nothing number bytes now) = elim (Bool-cases (gone m m.search number now).1) [
  | inl holds ↦ rw holds (gone_width m m.search number now)
  | inr fails ↦ rw fails (discount_width _ bytes now ∙ gone_width m m.search number now)
]
apply-plpmtu m (forgets number now) = gone_width m m.search number now
apply-plpmtu m (refuses carries now) = ground arith
