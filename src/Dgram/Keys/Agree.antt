-- ===== src/Dgram/Keys/Agree.antt =====
-- The key that opens a datagram is the key that sealed it.
use braid.Prelude.{ℕ, ◌+◌, ◌≤◌, ◌≡◌, refl, sym, ap, ◌∙◌, some, List, [], ◌∷◌, arith}
use braid.Dgram.Keys.{
  Direction, client_to_server, server_to_client, opposite, Context, last_epoch, next_epoch,
  max_epoch_catchup, Reach, current, previous, ahead_by, unreachable, KeySchedule, reach, advance,
  new_schedule, rotate, follow, key_for, opened,
}
use braid.Dgram.Keys.Secrets.{key_at}
use braid.Dgram.Keys.Exact.{
  Exact, new-Exact, key_for-Exact, rotate-Exact, key_for-kept, received-Exact,
}
use braid.Dgram.Keys.Found.{key_for-found}

-- What moves a schedule: a rotation of its own, a datagram that names an epoch but whose tag is
-- wrong, and one whose tag is right.
pub data Call : Type 0 where
  rotation : Call
  forged authentic : ℕ → Call

-- The epochs that a byte can name.
abbrev pub AreBytes : List Call → Type 0
AreBytes [] = Unit
AreBytes (rotation ∷ cs) = AreBytes cs
AreBytes (forged e ∷ cs) = (e ≤ last_epoch) × AreBytes cs
AreBytes (authentic e ∷ cs) = (e ≤ last_epoch) × AreBytes cs

module _ {S : Type 0} (derive_key : Context → S → S) (root : S) where
  unfoldable pub step : KeySchedule S → Call → KeySchedule S
  step s rotation = (rotate derive_key s).0
  step s (forged e) = (key_for derive_key s e).0
  step s (authentic e) = opened derive_key (key_for derive_key s e).0 (reach s e)

  unfoldable pub run : KeySchedule S → List Call → KeySchedule S
  run s [] = s
  run s (c ∷ cs) = run (step s c) cs

  pub run-Exact :
      (cs : List Call) (s : KeySchedule S)
      → AreBytes cs
      → Exact derive_key root s
      → Exact derive_key root (run s cs)
  unfolding run step
  run-Exact [] s bytes h = h
  run-Exact (rotation ∷ cs) s bytes h = run-Exact cs _ bytes (rotate-Exact derive_key root s h)
  run-Exact (forged e ∷ cs) s bytes h = run-Exact cs _ bytes.1 (key_for-Exact derive_key root s e h)
  run-Exact (authentic e ∷ cs) s bytes h =
      run-Exact cs _ bytes.1 (received-Exact derive_key root s e bytes.0 h)

  -- What rotates and what is received leaves the direction alone, and an epoch stays a byte.
  Kept : KeySchedule S → KeySchedule S → Type 0
  Kept s t = (t.sending ≡ s.sending) × (s.send.epoch ≤ last_epoch → t.send.epoch ≤ last_epoch)

  rotate-Kept : (s : KeySchedule S) → Kept s (rotate derive_key s).0
  unfolding Kept rotate advance next_epoch
  rotate-Kept s = ground arith

  follow-Kept : (s : KeySchedule S) (n : ℕ) → Kept s (follow derive_key s n).0
  unfolding Kept follow
  follow-Kept s n = ground arith

  opened-Kept : (s : KeySchedule S) (r : Reach) → Kept s (opened derive_key s r)
  unfolding Kept
  opened-Kept s current = (refl, λ h. h)
  opened-Kept s previous = (refl, λ h. h)
  opened-Kept s (ahead_by n) = follow-Kept s n
  opened-Kept s unreachable = (refl, λ h. h)

  key_for-Kept : (s : KeySchedule S) (e : ℕ) → Kept s (key_for derive_key s e).0
  unfolding Kept
  key_for-Kept s e = (
    ap (λ t. t.sending) (key_for-kept derive_key root s e),
    λ h. omega (arith, ap (λ t. t.send.epoch) (key_for-kept derive_key root s e)),
  )

  Kept-trans : (s t u : KeySchedule S) → Kept s t → Kept t u → Kept s u
  unfolding Kept
  Kept-trans s t u h k = (k.0 ∙ h.0, λ low. k.1 (h.1 low))

  run-Kept : (cs : List Call) (s : KeySchedule S) → Kept s (run s cs)
  unfolding Kept run step
  run-Kept [] s = (refl, λ h. h)
  run-Kept (rotation ∷ cs) s =
      let t = (rotate derive_key s).0 in Kept-trans s t (run t cs) (rotate-Kept s) (run-Kept cs t)
  run-Kept (forged e ∷ cs) s =
      let t = (key_for derive_key s e).0 in
      Kept-trans s t (run t cs) (key_for-Kept s e) (run-Kept cs t)
  run-Kept (authentic e ∷ cs) s =
      let t = (key_for derive_key s e).0 in
      let u = opened derive_key t (reach s e) in
      Kept-trans s t (run u cs) (key_for-Kept s e)
        (Kept-trans t u (run u cs) (opened-Kept t (reach s e)) (run-Kept cs u))

  run_new-Exact :
      (d : Direction) (cs : List Call)
      → AreBytes cs
      → Exact derive_key root (run (new_schedule derive_key root d) cs)
  run_new-Exact d cs bytes =
      run-Exact cs (new_schedule derive_key root d) bytes (new-Exact derive_key root d)

  run_new-Kept :
      (d : Direction) (cs : List Call)
      → Kept (new_schedule derive_key root d) (run (new_schedule derive_key root d) cs)
  run_new-Kept d cs = run-Kept cs (new_schedule derive_key root d)

opposite-opposite : (d : Direction) → opposite (opposite d) ≡ d
unfolding opposite
opposite-opposite client_to_server = refl
opposite-opposite server_to_client = refl

-- Whatever the two ends of a connection did before, the key that one tries on a datagram is the very
-- key that the other sealed it under: where both started from one root secret and seal in opposite
-- directions, every epoch that either of them was shown is a byte, and the epoch of the datagram is
-- the one that the receiver reads or at most four after it.
pub opens-sealed :
    {S : Type 0} (derive_key : Context → S → S) (root : S) (d : Direction) (cs ds : List Call)
    → AreBytes cs
    → AreBytes ds
    → (run derive_key root (new_schedule derive_key root (opposite d)) ds).recv.epoch
      ≤ (run derive_key root (new_schedule derive_key root d) cs).send.epoch
    → (run derive_key root (new_schedule derive_key root d) cs).send.epoch
      ≤ (run derive_key root (new_schedule derive_key root (opposite d)) ds).recv.epoch
        + max_epoch_catchup
    → (key_for derive_key
        (run derive_key root (new_schedule derive_key root (opposite d)) ds)
        (run derive_key root (new_schedule derive_key root d) cs).send.epoch).1
      ≡ some (run derive_key root (new_schedule derive_key root d) cs).send_key
unfolding Kept new_schedule
opens-sealed derive_key root d cs ds bytes bytes' low high =
    let a = run derive_key root (new_schedule derive_key root d) cs in
    let b = run derive_key root (new_schedule derive_key root (opposite d)) ds in
    let kept = run_new-Kept derive_key root d cs in
    let way : opposite b.sending ≡ a.sending =
      ap opposite (run_new-Kept derive_key root (opposite d) ds).0
      ∙ opposite-opposite d
      ∙ sym kept.0 in
    key_for-found derive_key root b a.send.epoch
      (run_new-Exact derive_key root (opposite d) ds bytes') low high (kept.1 (omega arith))
    ∙ ap (λ e. some (key_at derive_key root e a.send.epoch)) way
    ∙ ap some (sym (run_new-Exact derive_key root d cs bytes).send_key)
