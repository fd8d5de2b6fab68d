-- ===== src/Proto/Laws/Words.antt =====
-- The laws of the cursor's own reads: bytes, runs of bytes and big-endian integers.
use mathlib.Core.Path.{subst}
use braid.Prelude.{
  ltb→lt, ℕ, ◌≤◌, ◌<◌, ◌^◌, ◌≡◌, refl, sym, ap, ◌∙◌, [], ◌∷◌, ◌++◌, length, length-append, take,
  drop, ltb, Bool-cases, inl, inr, arith, Bytes, be, from_be, length-be, from_be-be,
}
use braid.Prelude.Slices.{take-append_le, take-append, drop-append, drop-append_le}
use braid.Proto.Outcome.{ok}
use braid.Proto.Cursor.{
  written, put_u8, put_u16, put_u32, put_u64, ◌>>=◌, pure, take_bytes, array, u8, u16, u32, u64,
}
use braid.Proto.Laws.{
  Trips-written, Trips, Extends, Costs, Trips-last, Extends-seq, Extends-pure, Costs-written,
}

pub Trips-u8 : (x : ℕ) → Trips (put_u8 x) u8 x
unfolding put_u8 u8
Trips-u8 x = Trips-written (x ∷ []) (λ rest. refl)

take_bytes-append : (s rest : Bytes) → take_bytes (length s) (s ++ rest) ≡ ok (s, rest)
unfolding take_bytes
take_bytes-append s rest = elim (Bool-cases (ltb (length (s ++ rest)) (length s))) [
  | inl short ↦
      absurd (omega (arith, ltb→lt (length (s ++ rest)) (length s) short, length-append s rest))
  | inr enough ↦ rw enough (
      ap (λ x. ok (x, drop (length s) (s ++ rest))) (take-append (length s) s rest refl)
      ∙ ap (λ x. ok (s, x)) (drop-append (length s) s rest refl))
]

pub Trips-take_bytes : (s : Bytes) (n : ℕ) → length s ≡ n → Trips (written s) (take_bytes n) s
Trips-take_bytes s n len =
    Trips-written s
      (λ rest. ap (λ k. take_bytes k (s ++ rest)) (sym len) ∙ take_bytes-append s rest)

pub Trips-array : (s : Bytes) (n : ℕ) → length s ≡ n → Trips (written s) (array n) s
unfolding array
Trips-array = Trips-take_bytes

from_array :
    (w x : ℕ) → x < 256 ^ w → Trips (written (be w x)) (array w >>= λ bytes. pure (from_be bytes)) x
from_array w x h =
    subst (λ y. Trips (written (be w x)) (array w >>= λ bytes. pure (from_be bytes)) y)
      (from_be-be w x h) (Trips-last from_be (Trips-array (be w x) w (length-be w x)))

pub Trips-u16 : (x : ℕ) → x < 2 ^ 16 → Trips (put_u16 x) u16 x
unfolding put_u16 u16
Trips-u16 x h = from_array 2 x h

pub Trips-u32 : (x : ℕ) → x < 2 ^ 32 → Trips (put_u32 x) u32 x
unfolding put_u32 u32
Trips-u32 x h = from_array 4 x h

pub Trips-u64 : (x : ℕ) → x < 2 ^ 64 → Trips (put_u64 x) u64 x
unfolding put_u64 u64
Trips-u64 x h = from_array 8 x h

pub Extends-u8 : Extends u8
unfolding u8
Extends-u8 = record { extend = extend_byte }
  where
    extend_byte :
        (c : Bytes) (v : ℕ) (rest more : Bytes)
        → u8 c ≡ ok (v, rest)
        → u8 (c ++ more) ≡ ok (v, rest ++ more)
    extend_byte [] v rest more h = cc
    extend_byte (b ∷ c) v rest more h = grind arith

taken :
    (n : ℕ) (c v rest : Bytes)
    → take_bytes n c ≡ ok (v, rest)
    → (n ≤ length c) × (take n c ≡ v) × (drop n c ≡ rest)
unfolding take_bytes
taken n c v rest h = ground arith

pub Extends-take_bytes : (n : ℕ) → Extends (take_bytes n)
unfolding take_bytes
Extends-take_bytes n = record {
  extend = λ c v rest more h.
      let (enough, e, e') = taken n c v rest h in
      ground (
        arith,
        length-append c more,
        take-append_le n c more enough,
        drop-append_le n c more enough,
        e,
        e',
      );
}

pub Extends-array : (n : ℕ) → Extends (array n)
unfolding array
Extends-array = Extends-take_bytes

pub Extends-u16 : Extends u16
unfolding u16
Extends-u16 = Extends-seq (Extends-array 2) (λ bytes. Extends-pure _)

pub Extends-u32 : Extends u32
unfolding u32
Extends-u32 = Extends-seq (Extends-array 4) (λ bytes. Extends-pure _)

pub Extends-u64 : Extends u64
unfolding u64
Extends-u64 = Extends-seq (Extends-array 8) (λ bytes. Extends-pure _)

pub Costs-u8 : (x : ℕ) → Costs (put_u8 x) 1
unfolding put_u8
Costs-u8 x = Costs-written _ (omega arith)

pub Costs-u16 : (x : ℕ) → Costs (put_u16 x) 2
unfolding put_u16
Costs-u16 x = Costs-written _ (omega (arith, length-be 2 x))

pub Costs-u32 : (x : ℕ) → Costs (put_u32 x) 4
unfolding put_u32
Costs-u32 x = Costs-written _ (omega (arith, length-be 4 x))

pub Costs-u64 : (x : ℕ) → Costs (put_u64 x) 8
unfolding put_u64
Costs-u64 x = Costs-written _ (omega (arith, length-be 8 x))
