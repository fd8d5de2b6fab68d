-- ===== src/Proto/Field/Str/Lawful.antt =====
-- The codecs of runs of bytes and of strings keep the laws of a field.
use braid.Prelude.{ℕ, ◌≡◌, refl, true, false, not, [], ◌∷◌, arith, ltb, length, Bytes}
use braid.Proto.Cursor.{Written, Decoder, written, ◌>>◌}
use braid.Proto.Laws.{
  Trips, Extends, Costs, Trips-seq, Trips-end, Extends-seq, Trips-nothing, Trips-reject_if,
  Trips-refuse_if, Extends-pure, Extends-reject_if, Costs-seq, Costs-written, Costs-refuse_if,
  Costs-more,
}
use braid.Proto.Laws.Words.{
  Trips-u8, Trips-take_bytes, Trips-u16, Trips-u32, Extends-u8, Extends-take_bytes, Extends-u16,
  Extends-u32, Costs-u8, Costs-u16, Costs-u32,
}
use braid.Proto.Values.{IsU16}
use braid.Proto.Text.{is_utf8, has_control, reject_control, str, max_term, valid_term}
use braid.Proto.Field.{IsLawful, Anything}
use braid.Proto.Field.Str.{
  chunk_field, term_field, pattern_field, ForwardTarget, encode_forward_target,
  decode_forward_target, target_field, name_field,
}

-- What a `String` keeps of its bytes.
abbrev pub IsString : Bytes → Type 0
IsString s = is_utf8 s ≡ true

pub Trips-str : (s : Bytes) (n : ℕ) → length s ≡ n → IsString s → Trips (written s) (str n) s
unfolding str
Trips-str s n len h =
    Trips-end _ (Trips-take_bytes s n len) (Trips-reject_if _ (rw h refl) Trips-nothing)

pub Extends-str : (n : ℕ) → Extends (str n)
unfolding str
Extends-str n = Extends-seq (Extends-take_bytes n) (λ s. Extends-reject_if _ _ (Extends-pure s))

pub Extends-reject_control :
    {A : Type 0} {m : Decoder A} (s : Bytes) → Extends m → Extends (reject_control s >> m)
unfolding reject_control
Extends-reject_control s p = Extends-reject_if _ _ p

pub Trips-reject_control :
    {A : Type 0} {w : Written} {m : Decoder A} {v : A} (s : Bytes)
    → has_control s ≡ false
    → Trips w m v
    → Trips w (reject_control s >> m) v
unfolding reject_control
Trips-reject_control s h p = Trips-reject_if _ h p

pub Costs-written_all : (s : Bytes) → Costs (written s) (length s)
Costs-written_all s = Costs-written s (omega arith)

pub chunk_field-IsLawful : (most : ℕ) → IsLawful (chunk_field most) Anything
unfolding chunk_field
chunk_field-IsLawful most = record {
  trips = λ v h. Trips-refuse_if _ _ (λ small. Trips-refuse_if _ _ (λ narrow.
      Trips-seq _ (Trips-u32 (length v) (ground arith))
        (Trips-reject_if _ (ground arith) (Trips-take_bytes v (length v) refl))));
  extends = Extends-seq Extends-u32 (λ len. Extends-reject_if _ _ (Extends-take_bytes len));
  costs = λ v h.
      Costs-refuse_if _ _ (Costs-refuse_if _ _ (Costs-seq (Costs-u32 _) (Costs-written_all v)));
}

pub short_term : (v : Bytes) → not (valid_term v) ≡ false → ltb max_term (length v) ≡ false
unfolding valid_term
short_term [] h = refl
short_term (b ∷ bs) h = ground arith

pub term_field-IsLawful : IsLawful term_field IsString
unfolding term_field
term_field-IsLawful = record {
  trips = λ v h. Trips-refuse_if _ _ (λ valid. Trips-refuse_if _ _ (λ narrow.
      Trips-seq _ (Trips-u16 (length v) (ground arith)) (
        Trips-reject_if _ (short_term v valid)
          (Trips-end _ (Trips-str v (length v) refl h) (Trips-reject_if _ valid Trips-nothing)))));
  extends = Extends-seq Extends-u16 (λ len.
      Extends-reject_if _ _
        (Extends-seq (Extends-str len) (λ term. Extends-reject_if _ _ (Extends-pure term))));
  costs = λ v h.
      Costs-refuse_if _ _ (Costs-refuse_if _ _ (Costs-seq (Costs-u16 _) (Costs-written_all v)));
}

pub pattern_field-IsLawful : IsLawful pattern_field IsString
unfolding pattern_field
pattern_field-IsLawful = record {
  trips = λ v h. Trips-refuse_if _ _ (λ valid. Trips-refuse_if _ _ (λ narrow.
      Trips-seq _ (Trips-u16 (length v) (ground arith)) (
        Trips-reject_if _ (ground arith) (
          Trips-end _ (Trips-str v (length v) refl h) (
            Trips-reject_control v (ground arith)
              (Trips-reject_if _ (ground arith) Trips-nothing))))));
  extends = Extends-seq Extends-u16 (λ len. Extends-reject_if _ _ (
      Extends-seq (Extends-str len)
        (λ p. Extends-reject_control p (Extends-reject_if _ _ (Extends-pure p)))));
  costs = λ v h.
      Costs-refuse_if _ _ (Costs-refuse_if _ _ (Costs-seq (Costs-u16 _) (Costs-written_all v)));
}

abbrev pub IsForwardTarget : ForwardTarget → Type 0
IsForwardTarget t = IsString t.host × IsU16 t.port

Trips-forward_target :
    (t : ForwardTarget)
    → IsForwardTarget t
    → Trips (encode_forward_target t) decode_forward_target t
unfolding encode_forward_target decode_forward_target
Trips-forward_target t h = Trips-refuse_if _ _ (λ valid. Trips-refuse_if _ _ (λ narrow.
    Trips-seq _ (Trips-u8 (length t.host)) (
      Trips-seq _ (Trips-str t.host (length t.host) refl h.0) (
        Trips-reject_control t.host (ground arith)
          (Trips-end _ (Trips-u16 t.port h.1) (Trips-reject_if _ (ground arith) Trips-nothing))))))

pub target_field-IsLawful : IsLawful target_field IsForwardTarget
unfolding target_field decode_forward_target encode_forward_target
target_field-IsLawful = record {
  trips = Trips-forward_target;
  extends = Extends-seq Extends-u8 (λ len. Extends-seq (Extends-str len) (λ host.
      Extends-reject_control host
        (Extends-seq Extends-u16 (λ port. Extends-reject_if _ _ (Extends-pure _)))));
  costs = λ t h.
      Costs-more
        (Costs-refuse_if _ _ (
          Costs-refuse_if _ _
            (Costs-seq (Costs-u8 _) (Costs-seq (Costs-written_all t.host) (Costs-u16 t.port)))))
        (omega arith);
}

pub name_field-IsLawful : IsLawful name_field IsString
unfolding name_field
name_field-IsLawful = record {
  trips = λ v h. Trips-refuse_if _ _ (λ narrow. Trips-refuse_if _ _ (λ valid.
      Trips-seq _ (Trips-u8 (length v)) (
        Trips-reject_if _ (ground arith) (
          Trips-end _ (Trips-str v (length v) refl h)
            (Trips-reject_control v (ground arith) Trips-nothing)))));
  extends = Extends-seq Extends-u8 (λ len.
      Extends-reject_if _ _
        (Extends-seq (Extends-str len) (λ p. Extends-reject_control p (Extends-pure p))));
  costs = λ v h.
      Costs-refuse_if _ _ (Costs-refuse_if _ _ (Costs-seq (Costs-u8 _) (Costs-written_all v)));
}
