-- ===== src/Proto/Field/Scalar.antt =====
-- The fields of crates/proto/src/lib.rs that are one word or one array of bytes.
use mathlib.Core.Path.{subst}
use braid.Prelude.{
  ℕ, ◌-◌, ◌^◌, ◌≤◌, ◌<◌, ◌≡◌, Option, none, some, arith, ltb, if◌then◌else◌, unwrap_or, Bytes,
}
use braid.Proto.Outcome.{invalid_field}
use braid.Proto.Cursor.{
  written, put_u16, put_u32, put_u64, ◌>>=◌, pure, or_fail, array, u16, u32, u64,
}
use braid.Proto.Laws.{
  Trips, Trips-last, Trips-end, Extends-seq, Trips-or_fail, Extends-pure, Extends-or_fail,
  Costs-written,
}
use braid.Proto.Laws.Words.{
  Trips-array, Trips-u16, Trips-u32, Trips-u64, Extends-array, Extends-u16, Extends-u32,
  Extends-u64, Costs-u16, Costs-u32, Costs-u64,
}
use braid.Proto.Values.{
  IsU16, IsU32, IsU64, IsNonZero32, IsNonZero64, IsArray, non_zero, Signed, non_negative, minus_suc,
  IsI32,
}
use braid.Proto.Field.{Field, IsLawful}

unfoldable pub u16_field : Field ℕ
u16_field = record { hint = λ _. 2; put = put_u16; get = u16 }

unfoldable pub u32_field : Field ℕ
u32_field = record { hint = λ _. 4; put = put_u32; get = u32 }

-- `U64` and `Off`.
unfoldable pub u64_field : Field ℕ
u64_field = record { hint = λ _. 8; put = put_u64; get = u64 }

-- `i32::to_be_bytes` is the two's complement.
unfoldable pub word : Signed → ℕ
word (non_negative x) = x
word (minus_suc x) = 2 ^ 32 - 1 - x

unfoldable pub signed : ℕ → Signed
signed w = if ltb w (2 ^ 31) then non_negative w else minus_suc (2 ^ 32 - 1 - w)

unfoldable pub i32_field : Field Signed
i32_field = record {
  hint = λ _. 4;
  put = λ x. put_u32 (word x);
  get = u32 >>= λ w. pure (signed w);
}

-- `Seq`, `Gen` and `ScreenVer`.
unfoldable pub seq_field : Field ℕ
seq_field = record {
  hint = λ _. 8;
  put = put_u64;
  get = u64 >>= λ x. or_fail (non_zero x) invalid_field;
}

unfoldable pub opt_seq_field : Field (Option ℕ)
opt_seq_field = record {
  hint = λ _. 8;
  put = λ seq. put_u64 (unwrap_or seq 0);
  get = u64 >>= λ x. pure (non_zero x);
}

unfoldable pub IsOptSeq : Option ℕ → Type 0
IsOptSeq none = Unit
IsOptSeq (some x) = IsNonZero64 x

unfoldable pub stream_field : Field ℕ
stream_field = record {
  hint = λ _. 4;
  put = put_u32;
  get = u32 >>= λ x. or_fail (non_zero x) invalid_field;
}

-- `Client`, `Session` and `Cap`, of 16, 16 and 32 bytes.
unfoldable pub array_field : ℕ → Field Bytes
array_field n = record { hint = λ _. n; put = λ bytes. written bytes; get = array n }

pub u16_field-IsLawful : IsLawful u16_field IsU16
unfolding u16_field
u16_field-IsLawful = record { trips = Trips-u16; extends = Extends-u16; costs = λ x h. Costs-u16 x }

pub u32_field-IsLawful : IsLawful u32_field IsU32
unfolding u32_field
u32_field-IsLawful = record { trips = Trips-u32; extends = Extends-u32; costs = λ x h. Costs-u32 x }

pub u64_field-IsLawful : IsLawful u64_field IsU64
unfolding u64_field
u64_field-IsLawful = record { trips = Trips-u64; extends = Extends-u64; costs = λ x h. Costs-u64 x }

signed-word : (x : Signed) → IsI32 x → signed (word x) ≡ x
unfolding signed word IsI32
signed-word (non_negative x) h = ground arith
signed-word (minus_suc x) h = ground arith

word_small : (x : Signed) → IsI32 x → word x < 2 ^ 32
unfolding word IsI32
word_small (non_negative x) h = omega arith
word_small (minus_suc x) h = omega arith

pub i32_field-IsLawful : IsLawful i32_field IsI32
unfolding i32_field
i32_field-IsLawful = record {
  trips = λ x h.
      subst (λ y. Trips (put_u32 (word x)) (u32 >>= λ w. pure (signed w)) y) (signed-word x h)
        (Trips-last signed (Trips-u32 (word x) (word_small x h)));
  extends = Extends-seq Extends-u32 (λ w. Extends-pure _);
  costs = λ x h. Costs-u32 (word x);
}

non_zero-some : (x : ℕ) → 1 ≤ x → non_zero x ≡ some x
unfolding non_zero
non_zero-some x h = ground arith

pub seq_field-IsLawful : IsLawful seq_field IsNonZero64
unfolding seq_field
seq_field-IsLawful = record {
  trips = λ x h. Trips-end _ (Trips-u64 x h.1) (Trips-or_fail _ (non_zero-some x h.0));
  extends = Extends-seq Extends-u64 (λ x. Extends-or_fail _ _);
  costs = λ x h. Costs-u64 x;
}

pub stream_field-IsLawful : IsLawful stream_field IsNonZero32
unfolding stream_field
stream_field-IsLawful = record {
  trips = λ x h. Trips-end _ (Trips-u32 x h.1) (Trips-or_fail _ (non_zero-some x h.0));
  extends = Extends-seq Extends-u32 (λ x. Extends-or_fail _ _);
  costs = λ x h. Costs-u32 x;
}

Trips-opt_seq :
    (seq : Option ℕ)
    → IsOptSeq seq
    → Trips (put_u64 (unwrap_or seq 0)) (u64 >>= λ x. pure (non_zero x)) seq
unfolding IsOptSeq non_zero
Trips-opt_seq none h = Trips-last non_zero (Trips-u64 0 (omega arith))
Trips-opt_seq (some x) h =
    subst (λ y. Trips (put_u64 x) (u64 >>= λ x. pure (non_zero x)) y) (non_zero-some x h.0)
      (Trips-last non_zero (Trips-u64 x h.1))

pub opt_seq_field-IsLawful : IsLawful opt_seq_field IsOptSeq
unfolding opt_seq_field
opt_seq_field-IsLawful = record {
  trips = Trips-opt_seq;
  extends = Extends-seq Extends-u64 (λ x. Extends-pure _);
  costs = λ seq h. Costs-u64 _;
}

pub array_field-IsLawful : (n : ℕ) → IsLawful (array_field n) (IsArray n)
unfolding array_field
array_field-IsLawful n = record {
  trips = λ bytes h. Trips-array bytes n h;
  extends = Extends-array n;
  costs = λ bytes h. Costs-written bytes (omega (arith, h));
}
