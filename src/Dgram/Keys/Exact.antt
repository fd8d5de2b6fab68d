-- ===== src/Dgram/Keys/Exact.antt =====
-- Every key that a schedule holds is the key of the epoch that it is held for.
use braid.Prelude.{
  ℕ, zero, suc, ◌+◌, ◌-◌, ◌≤◌, ◌≡◌, refl, sym, ap, ◌∙◌, inl, inr, Bool, true, false, ◌||◌, Option,
  none, some, List, [], ◌∷◌, arith, ltb, ◌==◌, Bool-cases, is_some, length,
}
use braid.Dgram.Keys.{
  Direction, opposite, Context, towards, last_epoch, max_epoch_catchup, Ratchet, Reach, current,
  previous, ahead_by, unreachable, KeySchedule, reach, slot_at, advance, new_schedule, rotated,
  rotate, fill, derive_ahead, peek_ahead, walk, followed, follow, key_by, key_for, opened,
}
use braid.Dgram.Keys.Secrets.{secret_at, key_at, IsAt, Next, advance-Next, Slots, fill-Slots}
use mathlib.Core.Path.{subst}

module _ {S : Type 0} (derive_key : Context → S → S) (root : S) where
  abbrev pub Retired : Direction → Option (ℕ × S) → Type 0
  Retired d none = Unit
  Retired d (some (retired, key)) = key ≡ key_at derive_key root d retired

  pub record Exact (s : KeySchedule S) : Type 0 where
    pub sent : IsAt derive_key root s.send
    pub send_key : s.send_key ≡ key_at derive_key root s.sending s.send.epoch
    pub got : IsAt derive_key root s.recv
    pub recv_key : s.recv_key ≡ key_at derive_key root (opposite s.sending) s.recv.epoch
    pub retired : Retired (opposite s.sending) s.recv_previous
    pub slots : Slots derive_key root (opposite s.sending) s.recv.epoch s.ahead
    pub wide : length s.ahead ≡ max_epoch_catchup

  pub new-Exact : (sending : Direction) → Exact (new_schedule derive_key root sending)
  unfolding new_schedule secret_at
  new-Exact sending = record {
    sent = refl;
    send_key = refl;
    got = refl;
    recv_key = refl;
    retired = tt;
    slots = tt;
    wide = refl;
  }

  rotated-Exact :
      (s : KeySchedule S) (o : Option (Ratchet S))
      → Next derive_key root s.send o
      → Exact s
      → Exact (rotated derive_key s o).0
  rotated-Exact s none n h = h
  rotated-Exact s (some r) n h = record {
    sent = n.0;
    send_key = ap (derive_key (towards s.sending)) n.0;
    got = h.got;
    recv_key = h.recv_key;
    retired = h.retired;
    slots = h.slots;
    wide = h.wide;
  }

  length-fill :
      (d : Direction) (r : Ratchet S) (slots : List (Option S))
      → length (fill derive_key d r slots) ≡ length slots
  unfolding fill
  length-fill d r [] = refl
  length-fill d r (slot ∷ slots) =
      elim (advance derive_key r)
        as (λ o.
          length (elim o [
            | none ↦ slot ∷ slots
            | some r' ↦ some (derive_key (towards d) r'.secret) ∷ fill derive_key d r' slots
          ])
          ≡ suc (length slots)) [ none ↦ refl | some r' ↦ ap suc (length-fill d r' slots) ]

  derive_ahead-Exact : (s : KeySchedule S) → Exact s → Exact (derive_ahead derive_key s)
  unfolding derive_ahead
  derive_ahead-Exact s h = record {
    sent = h.sent;
    send_key = h.send_key;
    got = h.got;
    recv_key = h.recv_key;
    retired = h.retired;
    slots = fill-Slots derive_key root (opposite s.sending) s.recv s.ahead h.got h.slots;
    wide = length-fill (opposite s.sending) s.recv s.ahead ∙ h.wide;
  }

  peek_ahead-Exact : (s : KeySchedule S) (n : ℕ) → Exact s → Exact (peek_ahead derive_key s n).0
  unfolding peek_ahead
  peek_ahead-Exact s n h = elim (Bool-cases ((n == 0) || ltb max_epoch_catchup n)) [
    | inl e ↦ rw e h
    | inr e ↦ rw e (elim (Bool-cases (is_some (slot_at (n - 1) s.ahead))) [
      | inl f ↦ rw f h
      | inr f ↦ rw f (derive_ahead-Exact s h)
    ])
  ]

  pub key_for-Exact : (s : KeySchedule S) (e : ℕ) → Exact s → Exact (key_for derive_key s e).0
  unfolding key_for
  key_for-Exact s e h = elim (reach s e) as (λ r. Exact (key_by derive_key s r).0) [
    | current ↦ h
    | previous ↦ h
    | ahead_by n ↦ peek_ahead-Exact s n h
    | unreachable ↦ h
  ]

  pub rotate-Exact : (s : KeySchedule S) → Exact s → Exact (rotate derive_key s).0
  unfolding rotate
  rotate-Exact s h =
      rotated-Exact s (advance derive_key s.send) (advance-Next derive_key root s.send h.sent) h

  -- Looking for a key changes nothing but the keys derived ahead.
  pub key_for-kept :
      (s : KeySchedule S) (e : ℕ)
      → (key_for derive_key s e).0 ≡ record s { ahead = (key_for derive_key s e).0.ahead }
  unfolding key_for peek_ahead derive_ahead
  key_for-kept s e =
      elim (reach s e)
        as (λ r. (key_by derive_key s r).0 ≡ record s { ahead = (key_by derive_key s r).0.ahead }) [
          | current ↦ refl
          | previous ↦ refl
          | ahead_by n ↦ elim (Bool-cases ((n == 0) || ltb max_epoch_catchup n)) [
            | inl f ↦ rw f refl
            | inr f ↦ rw f (elim (Bool-cases (is_some (slot_at (n - 1) s.ahead))) [
              | inl g ↦ rw g refl
              | inr g ↦ rw g refl
            ])
          ]
          | unreachable ↦ refl
        ]

  -- A walk that ends within the last epoch gets all the way.
  Walked : ℕ → Ratchet S → Ratchet S × Bool → Type 0
  Walked n r w = IsAt derive_key root w.0 × (w.1 ≡ true) × (w.0.epoch ≡ r.epoch + n)

  stepped-Walked :
      (n : ℕ) (r : Ratchet S) (o : Option (Ratchet S))
      → Next derive_key root r o
      → ((r' : Ratchet S)
          → IsAt derive_key root r'
          → r'.epoch + n ≤ last_epoch
          → Walked n r' (walk derive_key n r'))
      → r.epoch + suc n ≤ last_epoch
      → Walked (suc n) r (elim o [ none ↦ (r, false) | some r' ↦ walk derive_key n r' ])
  unfolding Walked
  stepped-Walked n r none k ih low = ground arith
  stepped-Walked n r (some r') k ih low =
      let (at, all, far) = ih r' k.0 (omega (arith, k.1, low)) in (at, all, omega (arith, far, k.1))

  walk-Walked :
      (n : ℕ) (r : Ratchet S)
      → IsAt derive_key root r
      → r.epoch + n ≤ last_epoch
      → Walked n r (walk derive_key n r)
  unfolding walk Walked
  walk-Walked zero r h low = (h, refl, omega arith)
  walk-Walked (suc n) r h low =
      stepped-Walked n r (advance derive_key r) (advance-Next derive_key root r h)
        (λ r' h' low'. walk-Walked n r' h' low') low

  followed-Exact :
      (s : KeySchedule S) (w : Ratchet S × Bool)
      → IsAt derive_key root w.0
      → w.1 ≡ true
      → Exact s
      → Exact (followed derive_key s w).0
  followed-Exact s (r, false) at all h = ground arith
  followed-Exact s (r, true) at all h = record {
    sent = h.sent;
    send_key = h.send_key;
    got = at;
    recv_key = ap (derive_key (towards (opposite s.sending))) at;
    retired = h.recv_key;
    slots = tt;
    wide = refl;
  }

  follow-Exact :
      (s : KeySchedule S) (n : ℕ)
      → s.recv.epoch + n ≤ last_epoch
      → Exact s
      → Exact (follow derive_key s n).0
  unfolding follow Walked
  follow-Exact s n low h = elim (Bool-cases ((n == 0) || ltb max_epoch_catchup n)) [
    | inl e ↦ rw e h
    | inr e ↦
        let (at, all, far) = walk-Walked n s.recv h.got low in
        rw e (followed-Exact s (walk derive_key n s.recv) at all h)
  ]

  reach-ahead : (s : KeySchedule S) (e n : ℕ) → reach s e ≡ ahead_by n → s.recv.epoch + n ≡ e
  unfolding reach
  reach-ahead s e n h = ground arith

  -- Following an epoch that a byte can name, by the reach of it.
  opened-Exact :
      (s : KeySchedule S) (r : Reach)
      → ((n : ℕ) → r ≡ ahead_by n → s.recv.epoch + n ≤ last_epoch)
      → Exact s
      → Exact (opened derive_key s r)
  opened-Exact s current low h = h
  opened-Exact s previous low h = h
  opened-Exact s (ahead_by n) low h = follow-Exact s n (low n refl) h
  opened-Exact s unreachable low h = h

  pub received-Exact :
      (s : KeySchedule S) (e : ℕ)
      → e ≤ last_epoch
      → Exact s
      → Exact (opened derive_key (key_for derive_key s e).0 (reach s e))
  received-Exact s e byte h =
      opened-Exact (key_for derive_key s e).0 (reach s e)
        (λ n there.
          subst (λ r. r.epoch + n ≤ last_epoch) (sym (ap (λ t. t.recv) (key_for-kept s e)))
            (omega (arith, reach-ahead s e n there, byte)))
        (key_for-Exact s e h)
