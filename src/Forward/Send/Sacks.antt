-- ===== src/Forward/Send/Sacks.antt =====
-- crates/forward/src/send.rs: the ranges that the peer holds, as the last acknowledgement left them.
use braid.Prelude.{
  ℕ, ◌≤◌, ◌<◌, ◌≡◌, refl, inl, inr, true, List, [], ◌∷◌, arith, ltb, leb, leb→le, Bool-cases,
  length, u64_max, saturating_add,
}
use braid.Forward.Wire.{SackRun, absolute}
use braid.Forward.Send.{Ranges, Sender, unheld, advance, all_sent, settle_ack, take_ranges, on_ack}
use braid.Forward.Send.Inv.{Above, Inv, advance-Inv}

-- `gap` and `len` are NonZeroU32.
abbrev pub AreRuns : List SackRun → Type 0
AreRuns [] = Unit {0}
AreRuns (run ∷ runs) = (0 < run.gap) × (0 < run.len) × AreRuns runs

abbrev pub HeldIn : Sender → Type 0
HeldIn s = Above s.base s.next s.held

-- Ranges that pass the test lie above the offset of the acknowledgement.
absolute-Above :
    (runs : List SackRun) (base c next : ℕ)
    → base ≤ c
    → next < u64_max
    → AreRuns runs
    → all_sent (absolute c runs) next ≡ true
    → Above base next (absolute c runs)
unfolding all_sent absolute
absolute-Above [] base c next le short ok e = tt
absolute-Above (run ∷ runs) base c next le short ok e =
    let start = saturating_add c run.gap in
    let stop = saturating_add start run.len in
    let here : leb stop next ≡ true = ground arith in
    let ends : stop ≤ next = leb→le stop next here in
    let rest = absolute-Above runs base stop next (omega arith) short ok.2 (ground arith) in
    (omega (arith, ends), omega (arith, ends, ok.1), ends, rest)

advance_base : (s : Sender) (off : ℕ) → s.base ≤ off → (advance s off).base ≤ off
unfolding advance
advance_base s off h = ground arith

settle_ack_same :
    (s : Sender) (off window now : ℕ)
    → ((settle_ack s off window now).base ≡ s.base)
      × ((settle_ack s off window now).next ≡ s.next)
      × ((settle_ack s off window now).held ≡ s.held)
unfolding settle_ack
settle_ack_same s off window now = ground arith

-- After any acknowledgement whose runs have no empty gap or length, the ranges that repairs step
-- over lie strictly between what is confirmed and what was sent, if they did before. The sender
-- keeps its invariant, and fewer than 2 ^ 64 - 1 bytes were written.
pub on_ack-HeldIn :
    (log : List ℕ) (s : Sender) (off window : ℕ) (held : List SackRun) (now : ℕ)
    → Inv log s
    → HeldIn s
    → AreRuns held
    → length log < u64_max
    → HeldIn (on_ack s off window held now).0
unfolding on_ack take_ranges
on_ack-HeldIn log s off window held now v h ok short = elim (Bool-cases (ltb off s.base)) [
  | inl stale ↦ rw stale h
  | inr good ↦ rw good (elim (Bool-cases (all_sent (absolute off held) (advance s off).next)) [
    | inl sent ↦ rw sent (
        moved (
          absolute-Above held (advance s off).base off (advance s off).next
            (advance_base s off (ground arith)) (omega (arith, (advance-Inv log s off v).written))
            ok sent))
    | inr bad ↦ rw bad tt
  ])
]
  where
    moved :
        Above (advance s off).base (advance s off).next (absolute off held)
        → HeldIn (settle_ack (record (advance s off) { held = absolute off held }) off window now)
    moved a =
        let (b, n, r) =
          settle_ack_same (record (advance s off) { held = absolute off held }) off window now in
        rw (b, n, r) a

-- So a repair that starts from what is confirmed steps over nothing at once.
pub unheld-base : (rs : Ranges) (base next : ℕ) → Above base next rs → unheld rs base ≡ base
unfolding unheld
unheld-base [] base next a = refl
unheld-base ((s, e) ∷ rs) base next a = ground (arith, unheld-base rs base next a.3)
