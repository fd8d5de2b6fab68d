-- ===== src/Dgram/Mtu/Deadline.antt =====
-- crates/dgram/src/mtu.rs: the deadline is when a poll next has something to do.
use braid.Prelude.{
  ℕ, suc, ◌≤◌, ◌<◌, ◌≡◌, refl, ap, ◌∙◌, ◌⊎◌, inl, inr, true, false, Option, none, some, List, [],
  ◌∷◌, arith, ltb, leb, if◌then◌else◌, Bool-cases, is_some, drop,
}
use braid.Dgram.Mtu.{Mtu, first_above, begin, warm, offer, poll, wakes, deadline}
use braid.Dgram.Mtu.Probe.{
  candidates, Search, unproven, asking, settled, confirming, cooling, is_over,
}

-- A poll that found something to do: a probe is offered, or nothing above the width is left.
abbrev pub Acts : Mtu × Option ℕ → Type 0
Acts (m, offered) = (is_some offered ≡ true) ⊎ (m.search ≡ settled)

first_above-Acts :
    (m : Mtu) (cs : List ℕ) (index now : ℕ)
    → let (n, s) = first_above cs index m.plpmtu in
      Acts (offer (record m { next = n; search = s }) s now)
unfolding first_above offer
first_above-Acts m [] index now = inr refl
first_above-Acts m (c ∷ cs) index now = elim (Bool-cases (ltb m.plpmtu c)) [
  | inl holds ↦ rw holds (inl refl)
  | inr fails ↦ rw fails (first_above-Acts m cs (suc index) now)
]

early_from :
    (m : Mtu) (at now : ℕ) (s : Search)
    → m.search ≡ s
    → wakes s ≡ some at
    → now < at
    → offer (warm m now) (warm m now).search now ≡ (m, none)
unfolding wakes warm offer
early_from m at now unproven q w lt = cc
early_from m at now (asking c none l none) q w lt = cc
early_from m at now (asking c none l (some d)) q w lt =
    ap
      (λ s.
        offer (if is_over s now then begin m else m) (if is_over s now then begin m else m).search
          now)
      q
    ∙ ap (λ s. offer m s now) q
    ∙ ground arith
early_from m at now (asking c (some o) l d) q w lt = cc
early_from m at now settled q w lt = cc
early_from m at now (confirming d none l) q w lt =
    ap
      (λ s.
        offer (if is_over s now then begin m else m) (if is_over s now then begin m else m).search
          now)
      q
    ∙ ap (λ s. offer m s now) q
    ∙ ground arith
early_from m at now (confirming d (some o) l) q w lt = cc
early_from m at now (cooling t) q w lt =
    let over : leb t now ≡ false = ground arith in
    ap
      (λ s.
        offer (if is_over s now then begin m else m) (if is_over s now then begin m else m).search
          now)
      q
    ∙ ap (λ b. offer (if b then begin m else m) (if b then begin m else m).search now) over
    ∙ ap (λ s. offer m s now) q

-- Before its deadline the search offers nothing and does not move.
poll-early : (m : Mtu) (at now : ℕ) → deadline m ≡ some at → now < at → poll m now ≡ (m, none)
unfolding deadline poll
poll-early m at now e lt = early_from m at now m.search refl e lt

due_from :
    (m : Mtu) (at now : ℕ) (s : Search)
    → m.search ≡ s
    → wakes s ≡ some at
    → at ≤ now
    → Acts (offer (warm m now) (warm m now).search now)
unfolding wakes warm offer begin
due_from m at now unproven q w le = cc
due_from m at now (asking c none l none) q w le = cc
due_from m at now (asking c none l (some d)) q w le = rw q (inl (ground arith))
due_from m at now (asking c (some o) l d) q w le = cc
due_from m at now settled q w le = cc
due_from m at now (confirming d none l) q w le = rw q (inl (ground arith))
due_from m at now (confirming d (some o) l) q w le = cc
due_from m at now (cooling t) q w le =
    let over : leb t now ≡ true = ground arith in
    rw q (rw over (first_above-Acts m (drop m.next candidates) m.next now))

-- From its deadline on a poll has something to do: it offers a probe, or it ends the pause with
-- nothing above the width left to try.
poll-due : (m : Mtu) (at now : ℕ) → deadline m ≡ some at → at ≤ now → Acts (poll m now)
unfolding deadline poll
poll-due m at now e le = due_from m at now m.search refl e le
