-- ===== src/Proto/Field.antt =====
-- `trait Field` of crates/proto/src/lib.rs: one field's wire form, with the bytes it is said to
-- cost, and the laws that every codec of the file keeps.
pub mod Struct
pub mod Str
pub mod Vector
pub mod Env
pub mod Scalar
use braid.Prelude.{ℕ}
use braid.Proto.Cursor.{Written, Decoder}
use braid.Proto.Laws.{Trips, Extends, Costs}

pub record Field (A : Type 0) : Type 0 where
  pub hint : A → ℕ
  pub put : A → Written
  pub get : Decoder A

-- `Fits` says what the value's Rust type keeps of it.
pub record IsLawful {A : Type 0} (f : Field A) (Fits : A → Type 0) : Type 0 where
  pub trips : (v : A) → Fits v → Trips (f.put v) f.get v
  pub extends : Extends f.get
  pub costs : (v : A) → Fits v → Costs (f.put v) (f.hint v)

-- A type whose every value fits.
abbrev pub Anything : {A : Type 0} → A → Type 0
Anything x = Unit
