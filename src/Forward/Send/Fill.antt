-- ===== src/Forward/Send/Fill.antt =====
-- crates/forward/src/send.rs: the segment that `fill` cuts from the two slices of the queue.
use braid.Prelude.{
  ℕ, ◌+◌, ◌-◌, ◌≤◌, ◌<◌, min, ◌≡◌, refl, sym, ap, ◌⊎◌, inl, inr, Bool, true, false, ◌||◌, some,
  List, arith, ltb, tests, Bool-cases, then_some, length, take, drop, length-take, length-drop,
}
use braid.Prelude.Slices.{drop-min}
use braid.Forward.Wire.{Segment}
use braid.Forward.Piece.{IsPiece, IsSegment, IsPiece-take, IsPiece-drop, IsPiece-rest}
use braid.Forward.Send.{Sender, end, is_at, cut, fill}
use braid.Forward.Send.Inv.{Inv}
use braid.Forward.Send.Duty.{is_at-eq, EndsAt-some}
use mathlib.Core.Path.{subst}

then_some-eq {ℓ} : {A : Type ℓ} (b : Bool) (a c : A) → then_some b a ≡ some c → (b ≡ true) × (a ≡ c)
then_some-eq true a c e = (refl, cc)
then_some-eq false a c e = cc

module _ (wrap : Sender → ℕ) where
  -- A cut inside the buffer is a piece of what was written, as long as asked or shorter, and not
  -- empty unless nothing was asked for.
  pub cut-IsPiece :
      (log : List ℕ) (s : Sender) (off len : ℕ)
      → Inv log s
      → s.base ≤ off
      → off + len ≤ end s
      → IsPiece log off (cut wrap s off len)
  unfolding cut
  cut-IsPiece log s off len v lo hi = elim (Bool-cases (ltb (off - s.base) (length front))) [
    | inl first ↦ rw first (
        IsPiece-take off _ (
          IsPiece-drop s.base (off - s.base) off (IsPiece-take s.base (wrap s) whole) (ground arith)
            (omega arith)))
    | inr second ↦ rw second (
        IsPiece-take off _ (
          IsPiece-drop (s.base + length front) (off - s.base - length front) off rest
            (omega (arith, length-take (wrap s) s.buffer, length-drop (wrap s) s.buffer))
            (ground arith)))
  ]
    where
      front : List ℕ
      front = take (wrap s) s.buffer

      whole : IsPiece log s.base s.buffer
      whole = rw v.buffer (IsPiece-rest log s.base v.base_in)

      rest : IsPiece log (s.base + length front) (drop (wrap s) s.buffer)
      rest = rw (drop-min (wrap s) s.buffer) (
          IsPiece-drop s.base (min (wrap s) (length s.buffer)) _ whole (omega arith)
            (omega (arith, length-take (wrap s) s.buffer)))

  pub length-cut :
      (s : Sender) (off len : ℕ)
      → s.base ≤ off
      → off + len ≤ end s
      → (length (cut wrap s off len) ≤ len) × (0 < len → 0 < length (cut wrap s off len))
  unfolding cut
  length-cut s off len lo hi = elim (Bool-cases (ltb (off - s.base) (length front))) [
    | inl first ↦ rw first (
        let n = length-take (min len (length front - start)) (drop start front) in
        let d = length-drop start front in (omega (arith, n), λ pos. omega (tests, n, d, first)))
    | inr second ↦ rw second (
        let n =
          length-take (min len (length back - (start - length front)))
            (drop (start - length front) back) in
        let d = length-drop (start - length front) back in
        let far : length front ≤ start = ground arith in
        (
          omega (arith, n),
          λ pos. omega (arith, n, d, length-take (wrap s) s.buffer, length-drop (wrap s) s.buffer),
        ))
  ]
    where
      start : ℕ
      start = off - s.base

      front : List ℕ
      front = take (wrap s) s.buffer

      back : List ℕ
      back = drop (wrap s) s.buffer

  pub fill-lawful :
      (log : List ℕ) (s : Sender) (off len : ℕ) (segment : Segment) (bytes : List ℕ)
      → Inv log s
      → s.base ≤ off
      → off + len ≤ end s
      → fill wrap s off len ≡ some (segment, bytes)
      → IsSegment log segment.off segment.fin bytes
        × (segment.len ≡ length bytes)
        × (length bytes ≤ len)
  unfolding fill
  fill-lawful log s off len segment bytes v lo hi e =
      subst
        (λ (p : Segment × List ℕ).
          IsSegment log p.0.off p.0.fin p.1 × (p.0.len ≡ length p.1) × (length p.1 ≤ len))
        (then_some-eq _ _ _ e).1
        (
          record { piece = cut-IsPiece log s off len v lo hi; end = λ f. ends f },
          refl,
          (length-cut s off len lo hi).0,
        )
    where
      taken : ℕ
      taken = length (cut wrap s off len)

      ends : is_at s.fin (off + taken) ≡ true → off + taken ≡ length log
      ends f = EndsAt-some log s.fin (off + taken) v.ends (is_at-eq s.fin (off + taken) f)

  pub fill-some :
      (log : List ℕ) (s : Sender) (off len : ℕ)
      → s.base ≤ off
      → off + len ≤ end s
      → (0 < len) ⊎ ((len ≡ 0) × (s.fin ≡ some off))
      → (sent : Segment × List ℕ) × (fill wrap s off len ≡ some sent)
  unfolding fill
  fill-some log s off len lo hi k = (
    (record { off = off; fin = is_at s.fin (off + taken); len = taken }, cut wrap s off len),
    rw (shown k),
  )
    where
      taken : ℕ
      taken = length (cut wrap s off len)

      shown :
          (0 < len) ⊎ ((len ≡ 0) × (s.fin ≡ some off))
          → ltb 0 taken || is_at s.fin (off + taken) ≡ true
      shown (inl pos) = let more = (length-cut s off len lo hi).1 pos in ground arith
      shown (inr (none_asked, f)) =
          let short = (length-cut s off len lo hi).0 in
          let here : off ≡ off + taken = omega arith in ground arith

  pub fill-off :
      (s : Sender) (off len : ℕ) (segment : Segment) (bytes : List ℕ)
      → fill wrap s off len ≡ some (segment, bytes)
      → (segment.off ≡ off) × (segment.len ≡ length (cut wrap s off len))
  unfolding fill
  fill-off s off len segment bytes e =
      let q = (then_some-eq _ _ _ e).1 in (sym (ap (λ p. p.0.off) q), sym (ap (λ p. p.0.len) q))
