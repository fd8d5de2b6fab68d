-- ===== src/Dgram/Keys/Found.antt =====
-- Which key is found for a datagram.
use braid.Prelude.{
  ℕ, ◌+◌, ◌-◌, ◌≤◌, ◌≡◌, refl, sym, ap, ◌∙◌, ◌≢◌, inl, inr, true, false, ◌||◌, Option, none, some,
  List, arith, ltb, ◌==◌, Bool-cases, Option-cases, is_some,
}
use braid.Dgram.Keys.{
  Direction, opposite, Context, last_epoch, max_epoch_catchup, Reach, current, previous, ahead_by,
  unreachable, KeySchedule, is_retired, reach, retired_key, reading, slot_at, fill, derive_ahead,
  peek_ahead, key_by, key_for,
}
use braid.Dgram.Keys.Secrets.{key_at, Slots, fill-Slots, fill-some, slot-Slots}
use braid.Dgram.Keys.Exact.{Retired, Exact}

reach-current : {S : Type 0} (s : KeySchedule S) (e : ℕ) → reach s e ≡ current → e ≡ s.recv.epoch
unfolding reach
reach-current s e h = ground arith

reach-previous :
    {S : Type 0} (s : KeySchedule S) (e : ℕ)
    → reach s e ≡ previous
    → is_retired s.recv_previous e ≡ true
unfolding reach
reach-previous s e h = ground arith

reach-near :
    {S : Type 0} (s : KeySchedule S) (e n : ℕ)
    → reach s e ≡ ahead_by n
    → (1 ≤ n) × (n ≤ max_epoch_catchup) × (s.recv.epoch + n ≡ e)
unfolding reach
reach-near s e n h = ground arith

reach-far :
    {S : Type 0} (s : KeySchedule S) (e : ℕ)
    → s.recv.epoch ≤ e
    → e ≤ s.recv.epoch + max_epoch_catchup
    → reach s e ≢ unreachable
unfolding reach
reach-far s e low high h = ground arith

module _ {S : Type 0} (derive_key : Context → S → S) (root : S) where
  held-slot :
      (d : Direction) (e i : ℕ) (slots : List (Option S))
      → Slots derive_key root d e slots
      → is_some (slot_at i slots) ≡ true
      → slot_at i slots ≡ some (key_at derive_key root d (e + i + 1))
  held-slot d e i slots h there = elim (Option-cases (slot_at i slots)) [
    | inl gone ↦ ground arith
    | inr held ↦ held.1 ∙ ap some (slot-Slots derive_key root d e i slots held.0 h held.1)
  ]

  peek_ahead-found :
      (s : KeySchedule S) (n : ℕ)
      → Exact derive_key root s
      → 1 ≤ n
      → n ≤ max_epoch_catchup
      → s.recv.epoch + n ≤ last_epoch
      → (peek_ahead derive_key s n).1
        ≡ some (key_at derive_key root (opposite s.sending) (s.recv.epoch + n))
  unfolding peek_ahead derive_ahead
  peek_ahead-found s n h some_way near low =
      let bad : ((n == 0) || ltb max_epoch_catchup n) ≡ false = ground arith in
      let at : s.recv.epoch + (n - 1) + 1 ≡ s.recv.epoch + n = omega arith in
      rw bad (elim (Bool-cases (is_some (slot_at (n - 1) s.ahead))) [
        | inl f ↦ rw f (
            held-slot (opposite s.sending) s.recv.epoch (n - 1) s.ahead h.slots f
            ∙ ap (λ e. some (key_at derive_key root (opposite s.sending) e)) at)
        | inr f ↦ rw f (
            held-slot (opposite s.sending) s.recv.epoch (n - 1)
              (fill derive_key (opposite s.sending) s.recv s.ahead)
              (fill-Slots derive_key root (opposite s.sending) s.recv s.ahead h.got h.slots)
              (fill-some derive_key root (opposite s.sending) s.recv (n - 1) s.ahead h.got
                (omega arith) (omega (arith, h.wide)))
            ∙ ap (λ e. some (key_at derive_key root (opposite s.sending) e)) at)
      ])

  Retired-found :
      (d : Direction) (o : Option (ℕ × S)) (e : ℕ)
      → Retired derive_key root d o
      → is_retired o e ≡ true
      → retired_key o ≡ some (key_at derive_key root d e)
  Retired-found d none e h k = ground arith
  Retired-found d (some (retired, key)) e h k =
      ap some (h ∙ ap (key_at derive_key root d) {x = retired} {y = e} (ground arith))

  found-by :
      (s : KeySchedule S) (e : ℕ) (r : Reach)
      → reach s e ≡ r
      → Exact derive_key root s
      → s.recv.epoch ≤ e
      → e ≤ s.recv.epoch + max_epoch_catchup
      → e ≤ last_epoch
      → (key_by derive_key s r).1 ≡ some (key_at derive_key root (opposite s.sending) e)
  unfolding reading
  found-by s e current at h low high byte =
      ap some
        (h.recv_key ∙ ap (key_at derive_key root (opposite s.sending)) (sym (reach-current s e at)))
  found-by s e previous at h low high byte =
      Retired-found (opposite s.sending) s.recv_previous e h.retired (reach-previous s e at)
  found-by s e (ahead_by n) at h low high byte =
      let (some_way, near, there) = reach-near s e n at in
      peek_ahead-found s n h some_way near (omega arith)
      ∙ ap (λ e. some (key_at derive_key root (opposite s.sending) e)) there
  found-by s e unreachable at h low high byte = elim (reach-far s e low high at) [ ]

  pub key_for-found :
      (s : KeySchedule S) (e : ℕ)
      → Exact derive_key root s
      → s.recv.epoch ≤ e
      → e ≤ s.recv.epoch + max_epoch_catchup
      → e ≤ last_epoch
      → (key_for derive_key s e).1 ≡ some (key_at derive_key root (opposite s.sending) e)
  unfolding key_for
  key_for-found s e h low high byte = found-by s e (reach s e) refl h low high byte
