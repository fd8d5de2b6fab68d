-- ===== src/Proto/Forwarded/Lawful.antt =====
-- The messages of a forwarded connection are read back. A version below 14 loses what an
-- acknowledgement holds past its gap.
use braid.Prelude.{
  ℕ, ◌≤◌, ◌≡◌, refl, inl, inr, Bool, false, List, [], ◌∷◌, ◌++◌, arith, leb, if◌then◌else◌, leb→le,
  Bool-cases, Bytes,
}
use braid.Proto.Outcome.{truncated, ok, err}
use braid.Proto.Cursor.{Written, Decoder, ◌>>=◌, u8, exhausted}
use braid.Proto.Laws.{
  Trips, Extends, Trips-seq, Trips-last, Extends-seq, Trips-written, Extends-pure,
}
use braid.Proto.Values.{IsU32, IsU64, IsNonZero32, ForwardResetReason}
use braid.Proto.Field.Str.Lawful.{chunk_field-IsLawful}
use braid.Proto.Field.Scalar.{u32_field-IsLawful, u64_field-IsLawful, stream_field-IsLawful}
use braid.Proto.Field.Struct.Lawful.{reset_field-IsLawful, fin_field-IsLawful}
use braid.Proto.Field.Vector.{sack_field}
use braid.Proto.Field.Vector.Lawful.{All}
use braid.Proto.Field.Vector.Entries.{IsSackRun, sack_field-IsLawful}
use braid.Proto.Forwarded.{
  held_version, get_since, put_since, data_chunk, put_data, put_ack, put_reset, get_data, get_ack,
  get_reset,
}
use braid.Forward.Wire.{max_forward_chunk, SackRun}

-- What of `held` a version carries.
unfoldable pub held_at : ℕ → List SackRun → List SackRun
held_at spoken held = if leb held_version spoken then held else []

abbrev pub IsData : ℕ → ℕ → Type 0
IsData stream off = IsNonZero32 stream × IsU64 off

abbrev pub IsAck : ℕ → ℕ → ℕ → List SackRun → Type 0
IsAck stream off window held = IsNonZero32 stream × IsU64 off × IsU32 window × All IsSackRun held

module _ {A : Type 0} where
  pub Trips-data :
      (message : ℕ → ℕ → Bool → Bytes → A) (stream off : ℕ) (fin : Bool) (bytes : Bytes)
      → IsData stream off
      → Trips (put_data stream off fin bytes) (get_data message) (message stream off fin bytes)
  unfolding put_data get_data data_chunk
  Trips-data message stream off fin bytes h = Trips-seq _ (stream_field-IsLawful.trips stream h.0) (
      Trips-seq _ (u64_field-IsLawful.trips off h.1) (
        Trips-seq _ (fin_field-IsLawful.trips fin tt)
          (Trips-last _ ((chunk_field-IsLawful max_forward_chunk).trips bytes tt))))

  pub Trips-reset :
      (message : ℕ → ForwardResetReason → A) (stream : ℕ) (reason : ForwardResetReason)
      → IsNonZero32 stream
      → Trips (put_reset stream reason) (get_reset message) (message stream reason)
  unfolding put_reset get_reset
  Trips-reset message stream reason h =
      Trips-seq _ (stream_field-IsLawful.trips stream h)
        (Trips-last _ (reset_field-IsLawful.trips reason tt))

  pub Extends-data : (message : ℕ → ℕ → Bool → Bytes → A) → Extends (get_data message)
  unfolding get_data data_chunk
  Extends-data message = Extends-seq stream_field-IsLawful.extends (λ stream.
      Extends-seq u64_field-IsLawful.extends (λ off. Extends-seq fin_field-IsLawful.extends (λ fin.
        Extends-seq ((chunk_field-IsLawful max_forward_chunk).extends) (λ bytes. Extends-pure _))))

  pub Extends-reset : (message : ℕ → ForwardResetReason → A) → Extends (get_reset message)
  unfolding get_reset
  Extends-reset message =
      Extends-seq stream_field-IsLawful.extends
        (λ stream. Extends-seq reset_field-IsLawful.extends (λ reason. Extends-pure _))

-- A field that is present is not taken for its default, since it reads at least one byte.
module _ {A : Type 0} where
  present :
      (since spoken : ℕ) (default : A) (get : Decoder A) (c : Bytes) (v : A) (rest : Bytes)
      → since ≤ spoken
      → get [] ≡ err truncated
      → get c ≡ ok (v, rest)
      → get_since since spoken default get c ≡ ok (v, rest)
  unfolding get_since exhausted
  present since spoken default get [] v rest new some_byte h = cc
  present since spoken default get (b ∷ c) v rest new some_byte h = ground arith

  absent :
      (since spoken : ℕ) (default : A) (get : Decoder A) (c : Bytes)
      → leb since spoken ≡ false
      → get_since since spoken default get c ≡ ok (default, c)
  unfolding get_since
  absent since spoken default get c old = ground arith

  pub Trips-since :
      (since spoken : ℕ) (default : A) (get : Decoder A) {w : Written} {v : A}
      → get [] ≡ err truncated
      → Trips w get v
      → Trips
          (put_since since spoken w)
          (get_since since spoken default get)
          (if leb since spoken then v else default)
  unfolding put_since
  Trips-since since spoken default get {w} {v} some_byte t = elim (Bool-cases (leb since spoken)) [
    | inl new ↦ rw new (record {
      trip = λ e h rest.
          present since spoken default get (e ++ rest) v rest (leb→le since spoken new) some_byte
            (t.trip e h rest);
    })
    | inr old ↦ rw old (Trips-written [] (λ rest. absent since spoken default get rest old))
  ]

sack-some_byte : sack_field.get [] ≡ err truncated
unfolding sack_field ◌>>=◌ u8
sack-some_byte = refl

pub Trips-ack :
    {A : Type 0} (message : ℕ → ℕ → ℕ → List SackRun → A) (spoken stream off window : ℕ)
    (held : List SackRun)
    → IsAck stream off window held
    → Trips
        (put_ack spoken stream off window held)
        (get_ack spoken message)
        (message stream off window (held_at spoken held))
unfolding put_ack get_ack held_at
Trips-ack message spoken stream off window held h =
    Trips-seq _ (stream_field-IsLawful.trips stream h.0) (
      Trips-seq _ (u64_field-IsLawful.trips off h.1) (
        Trips-seq _ (u32_field-IsLawful.trips window h.2) (
          Trips-last _ (
            Trips-since held_version spoken [] sack_field.get sack-some_byte
              (sack_field-IsLawful.trips held h.3)))))
