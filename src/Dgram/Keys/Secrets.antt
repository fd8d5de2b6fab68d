-- ===== src/Dgram/Keys/Secrets.antt =====
-- The secret of each epoch, and the keys that are derived ahead of the one that is read.
use braid.Prelude.{
  ℕ, zero, suc, ◌+◌, ◌≤◌, ◌<◌, ◌≡◌, refl, sym, ap, ◌∙◌, inl, inr, true, Option, none, some, List,
  [], ◌∷◌, arith, ltb, ltb→lt, Bool-cases, is_some, length,
}
use braid.Dgram.Keys.{
  Direction, Context, towards, epoch_ratchet, last_epoch, next_epoch, Ratchet, slot_at, advance,
  fill,
}
use mathlib.Core.Path.{subst}

module _ {S : Type 0} (derive_key : Context → S → S) (root : S) where
  -- The secret of an epoch is the root, hashed that many times.
  unfoldable pub secret_at : ℕ → S
  secret_at zero = root
  secret_at (suc n) = derive_key epoch_ratchet (secret_at n)

  abbrev pub key_at : Direction → ℕ → S
  key_at d n = derive_key (towards d) (secret_at n)

  abbrev pub IsAt : Ratchet S → Type 0
  IsAt r = r.secret ≡ secret_at r.epoch

  secret_at-suc : (n m : ℕ) → m ≡ n + 1 → secret_at m ≡ derive_key epoch_ratchet (secret_at n)
  unfolding secret_at
  secret_at-suc n m e = ap secret_at {x = m} {y = suc n} (omega arith)

  -- What a step of the ratchet comes to.
  abbrev pub Next : Ratchet S → Option (Ratchet S) → Type 0
  Next r none = last_epoch ≤ r.epoch
  Next r (some r') = IsAt r' × (r'.epoch ≡ r.epoch + 1) × (r.epoch < last_epoch)

  pub advance-Next : (r : Ratchet S) → IsAt r → Next r (advance derive_key r)
  unfolding advance next_epoch
  advance-Next r h = elim (Bool-cases (ltb r.epoch last_epoch)) [
    | inl e ↦ rw e (
      ap (derive_key epoch_ratchet) h ∙ sym (secret_at-suc r.epoch (r.epoch + 1) refl),
      refl,
      ltb→lt r.epoch last_epoch e,
    )
    | inr e ↦ ground arith
  ]

  abbrev pub Slots : Direction → ℕ → List (Option S) → Type 0
  Slots d e [] = Unit
  Slots d e (none ∷ slots) = Slots d (e + 1) slots
  Slots d e (some k ∷ slots) = (k ≡ key_at d (e + 1)) × Slots d (e + 1) slots

  Slots-tail :
      (d : Direction) (e : ℕ) (slot : Option S) (slots : List (Option S))
      → Slots d e (slot ∷ slots)
      → Slots d (e + 1) slots
  Slots-tail d e none slots h = h
  Slots-tail d e (some k) slots h = h.1

  filled-Slots :
      (d : Direction) (r : Ratchet S) (slot : Option S) (slots : List (Option S))
      (o : Option (Ratchet S))
      → Next r o
      → ((r' : Ratchet S)
          → IsAt r'
          → Slots d r'.epoch slots
          → Slots d r'.epoch (fill derive_key d r' slots))
      → Slots d r.epoch (slot ∷ slots)
      → Slots d r.epoch (elim o [
        | none ↦ slot ∷ slots
        | some r' ↦ some (derive_key (towards d) r'.secret) ∷ fill derive_key d r' slots
      ])
  filled-Slots d r slot slots none n ih h = h
  filled-Slots d r slot slots (some r') n ih h = (
    ap (derive_key (towards d)) n.0 ∙ ap (key_at d) n.1,
    subst (λ e. Slots d e (fill derive_key d r' slots)) n.1
        (ih r' n.0 (subst (λ e. Slots d e slots) (sym n.1) (Slots-tail d r.epoch slot slots h))),
  )

  pub fill-Slots :
      (d : Direction) (r : Ratchet S) (slots : List (Option S))
      → IsAt r
      → Slots d r.epoch slots
      → Slots d r.epoch (fill derive_key d r slots)
  unfolding fill
  fill-Slots d r [] h k = tt
  fill-Slots d r (slot ∷ slots) h k =
      filled-Slots d r slot slots (advance derive_key r) (advance-Next r h)
        (λ r' h' k'. fill-Slots d r' slots h' k') k

  filled-some :
      (d : Direction) (r : Ratchet S) (i : ℕ) (slot : Option S) (slots : List (Option S))
      (o : Option (Ratchet S))
      → Next r o
      → ((r' : Ratchet S) (j : ℕ)
          → IsAt r'
          → r'.epoch + j < last_epoch
          → j < length slots
          → is_some (slot_at j (fill derive_key d r' slots)) ≡ true)
      → r.epoch + i < last_epoch
      → i < length (slot ∷ slots)
      → is_some (
          slot_at i (elim o [
            | none ↦ slot ∷ slots
            | some r' ↦ some (derive_key (towards d) r'.secret) ∷ fill derive_key d r' slots
          ]))
        ≡ true
  unfolding slot_at
  filled-some d r i slot slots none n ih low short = ground arith
  filled-some d r zero slot slots (some r') n ih low short = refl
  filled-some d r (suc i) slot slots (some r') n ih low short =
      ih r' i n.0 (omega (arith, n.1)) (omega arith)

  pub fill-some :
      (d : Direction) (r : Ratchet S) (i : ℕ) (slots : List (Option S))
      → IsAt r
      → r.epoch + i < last_epoch
      → i < length slots
      → is_some (slot_at i (fill derive_key d r slots)) ≡ true
  unfolding fill
  fill-some d r i [] h low short = ground arith
  fill-some d r i (slot ∷ slots) h low short =
      filled-some d r i slot slots (advance derive_key r) (advance-Next r h)
        (λ r' j h' low' short'. fill-some d r' j slots h' low' short') low short

  pub slot-Slots :
      (d : Direction) (e i : ℕ) (slots : List (Option S)) (k : S)
      → Slots d e slots
      → slot_at i slots ≡ some k
      → k ≡ key_at d (e + i + 1)
  unfolding slot_at
  slot-Slots d e i [] k h at = cc
  slot-Slots d e zero (none ∷ slots) k h at = cc
  slot-Slots d e zero (some k' ∷ slots) k h at =
      let p : k' ≡ k = cc in
      sym p ∙ h.0 ∙ ap (key_at d) {x = e + 1} {y = e + zero + 1} (omega arith)
  slot-Slots d e (suc i) (slot ∷ slots) k h at =
      slot-Slots d (e + 1) i slots k (Slots-tail d e slot slots h) at
      ∙ ap (key_at d) {x = e + 1 + i + 1} {y = e + suc i + 1} (omega arith)
