-- ===== src/Forward/Send/Duty.antt =====
-- crates/forward/src/send.rs: what `owed` decides to send.
use braid.Prelude.{
  ℕ, ◌+◌, ◌≤◌, ◌<◌, min, ◌≡◌, refl, inl, inr, Bool, true, not, ◌&&◌, Option, none, some, List, [],
  ◌∷◌, arith, ltb, leb, ◌==◌, if◌then◌else◌, tests, Bool-cases, Option-cases, map_or, length,
}
use braid.Forward.Piece.{EndsAt}
use braid.Forward.Send.{
  Ranges, Sender, Owed, repair, fresh_bytes, end_mark, probe, nothing, end, unheld, next_held,
  is_at, granted, owed_fresh, owed,
}
use braid.Forward.Send.Inv.{Inv}

-- What `owed` asks for lies in the buffer and fits the budget.
abbrev pub Sound : Sender → ℕ → Owed → Type 0
Sound s budget (repair off len) = (s.base ≤ off) × (off + len ≤ s.next) × (0 < len) × (len ≤ budget)
Sound s budget (fresh_bytes off len) =
    (off ≡ s.next) × (off + len ≤ end s) × (off + len ≤ granted s) × (0 < len) × (len ≤ budget)
Sound s budget (end_mark off) = (off ≡ end s) × (s.fin ≡ some off) × (s.next ≡ end s)
Sound s budget (probe off) = (off ≡ s.base) × (s.base < end s) × (s.next ≡ s.base)
Sound s budget nothing = Unit {0}

pub unheld-le : (rs : Ranges) (off : ℕ) → off ≤ unheld rs off
unfolding unheld
unheld-le [] off = omega arith
unheld-le ((s, e) ∷ rs) off =
    ground (arith, unheld-le rs (if leb s off && ltb off e then e else off))

next_held-lt : (rs : Ranges) (off start : ℕ) → next_held rs off ≡ some start → off < start
unfolding next_held
next_held-lt [] off start h = cc
next_held-lt ((s, e) ∷ rs) off start h = ground (arith, next_held-lt rs off start)

next_stop-lt :
    (rs : Ranges) (off next : ℕ)
    → off < next
    → off < map_or (next_held rs off) next (λ start. start)
next_stop-lt rs off next h = elim (Option-cases (next_held rs off)) [
  | inl e ↦ rw e h
  | inr (start, e) ↦ rw e (next_held-lt rs off start e)
]

pub is_at-eq : (o : Option ℕ) (n : ℕ) → is_at o n ≡ true → o ≡ some n
is_at-eq none n h = cc
is_at-eq (some e) n h = ground arith

owed_fresh-Sound :
    (log : List ℕ) (s : Sender) (woken : Bool) (budget : ℕ)
    → Inv log s
    → 0 < budget
    → Sound s budget (owed_fresh s woken budget)
unfolding owed_fresh
owed_fresh-Sound log s woken budget v h = elim (Bool-cases (ltb s.next limit)) [
  | inl more ↦
      rw more (refl, omega (tests, more), omega (tests, more), omega (tests, more), omega arith)
  | inr none_left ↦ rw none_left (elim (Bool-cases ending) [
    | inl last ↦ rw last (refl, is_at-eq s.fin (end s) (ground arith), ground arith)
    | inr later ↦ rw later (elim (Bool-cases (woken && s.next == s.base && ltb s.next (end s))) [
      | inl asks ↦ rw asks (refl, ground arith, ground arith)
      | inr quiet ↦ rw quiet tt
    ])
  ])
]
  where
    limit : ℕ
    limit = min (end s) (granted s)

    ending : Bool
    ending = is_at s.fin (end s) && s.next == end s && not s.fin_sent && not s.fin_acked

pub owed-Sound :
    (log : List ℕ) (s : Sender) (woken : Bool) (budget : ℕ)
    → Inv log s
    → 0 < budget
    → Sound s budget (owed s woken budget)
unfolding owed
owed-Sound log s woken budget v h = elim (Bool-cases (ltb s.cursor s.next && ltb off s.next)) [
  | inl lost ↦ rw lost (
    omega (arith, unheld-le s.held s.cursor, v.walked),
    ground arith,
    ground (arith, next_stop-lt s.held off s.next),
    omega arith,
  )
  | inr whole ↦ rw whole (owed_fresh-Sound log s woken budget v h)
]
  where
    off : ℕ
    off = unheld s.held s.cursor

pub EndsAt-some : (log : List ℕ) (o : Option ℕ) (e : ℕ) → EndsAt log o → o ≡ some e → e ≡ length log
EndsAt-some log none e h q = cc
EndsAt-some log (some x) e h q = ground arith
