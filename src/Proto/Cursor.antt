-- ===== src/Proto/Cursor.antt =====
-- `Cursor` and the `put_` functions of crates/proto/src/lib.rs. A cursor is the bytes it has not
-- reached yet, so a decoder answers its value and the bytes after it. An encoder answers the
-- bytes it appends; one that fails leaves its buffer unread, so the bytes before that are dropped.
use braid.Prelude.{
  ℕ, Bool, true, false, [], ◌∷◌, ◌++◌, length, take, drop, ltb, if◌then◌else◌, Bytes, Option, none,
  some, be, from_be,
}
use braid.Proto.Outcome.{DecodeError, truncated, EncodeError, Result, ok, err}

abbrev pub Written : Type 0
Written = Result EncodeError Bytes

abbrev pub Decoder : Type 0 → Type 0
Decoder A = Bytes → Result DecodeError (A × Bytes)

-- One field after another: the first failure is the answer.
abbrev pub appended : Bytes → Written → Written
appended a (ok b) = ok (a ++ b)
appended a (err e) = err e

infixr 5 ◌<+>◌
unfoldable pub ◌<+>◌ : Written → Written → Written
ok a <+> w = appended a w
err e <+> w = err e

unfoldable pub written : Bytes → Written
written bytes = ok bytes

-- A check that returns early with `Err`, before the rest is written.
unfoldable pub refuse_if : Bool → EncodeError → Written → Written
refuse_if true e w = err e
refuse_if false e w = w

unfoldable pub put_u8 : ℕ → Written
put_u8 x = written (x ∷ [])

unfoldable pub put_u16 : ℕ → Written
put_u16 x = written (be 2 x)

unfoldable pub put_u32 : ℕ → Written
put_u32 x = written (be 4 x)

unfoldable pub put_u64 : ℕ → Written
put_u64 x = written (be 8 x)

-- `?` of a decoder's result, with the cursor passed on.
abbrev pub continue :
    {A B : Type 0}
    → Result DecodeError (A × Bytes)
    → (A → Decoder B)
    → Result DecodeError (B × Bytes)
continue (ok (a, c)) f = f a c
continue (err e) f = err e

infixl 5 ◌>>=◌ ◌>>◌
unfoldable pub ◌>>=◌ : {A B : Type 0} → Decoder A → (A → Decoder B) → Decoder B
◌>>=◌ m f c = continue (m c) f

unfoldable pub ◌>>◌ : {B : Type 0} → Decoder (Unit {0}) → Decoder B → Decoder B
◌>>◌ m k = m >>= λ _. k

unfoldable pub pure : {A : Type 0} → A → Decoder A
pure a c = ok (a, c)

unfoldable pub fail : {A : Type 0} → DecodeError → Decoder A
fail e c = err e

-- `ok_or(e)?`.
unfoldable pub or_fail : {A : Type 0} → Option A → DecodeError → Decoder A
or_fail none e = fail e
or_fail (some a) e = pure a

-- A check that returns early with `Err`.
unfoldable pub reject_if : Bool → DecodeError → Decoder (Unit {0})
reject_if true e = fail e
reject_if false e = pure tt

unfoldable pub take_bytes : ℕ → Decoder Bytes
take_bytes n c = if ltb (length c) n then err truncated else ok (take n c, drop n c)

-- An array of `n` bytes is the bytes that `take` has proved to be `n`.
unfoldable pub array : ℕ → Decoder Bytes
array n = take_bytes n

unfoldable pub u8 : Decoder ℕ
u8 [] = err truncated
u8 (b ∷ c) = ok (b, c)

unfoldable pub u16 : Decoder ℕ
u16 = array 2 >>= λ bytes. pure (from_be bytes)

unfoldable pub u32 : Decoder ℕ
u32 = array 4 >>= λ bytes. pure (from_be bytes)

unfoldable pub u64 : Decoder ℕ
u64 = array 8 >>= λ bytes. pure (from_be bytes)

unfoldable pub exhausted : Bytes → Bool
exhausted [] = true
exhausted (b ∷ c) = false
