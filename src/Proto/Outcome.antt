-- ===== src/Proto/Outcome.antt =====
-- The two error types of crates/proto/src/lib.rs and the results they stand in. `Io` carries
-- what the operating system said, which no code here reads, so it carries nothing.
use braid.Prelude.{ℕ, Bool, true, false, Option, none, some}

pub data DecodeError : Type 0 where
  truncated : DecodeError
  oversize : (actual limit : ℕ) → DecodeError
  bad_version : ℕ → DecodeError
  bad_tag : ℕ → DecodeError
  invalid_field : DecodeError
  bad_utf8 : DecodeError
  trailing_bytes : DecodeError
  io : DecodeError

unfoldable pub is_transport_loss : DecodeError → Bool
is_transport_loss truncated = true
is_transport_loss io = true
is_transport_loss (oversize actual limit) = false
is_transport_loss (bad_version v) = false
is_transport_loss (bad_tag tag) = false
is_transport_loss invalid_field = false
is_transport_loss bad_utf8 = false
is_transport_loss trailing_bytes = false

-- What `encode` refuses. The errors of screen pieces are not among them.
pub data EncodeError : Type 0 where
  too_large : EncodeError
  bad_term bad_env bad_command bad_session_name bad_pattern bad_match : EncodeError
  bad_forward_target : EncodeError

pub data Result {ℓ κ} (E : Type κ) (A : Type ℓ) : Type (ℓ ⊔ κ) where
  ok : A → Result E A
  err : E → Result E A

-- `Option::ok_or`.
abbrev pub ok_or {ℓ κ} : {E : Type κ} {A : Type ℓ} → Option A → E → Result E A
ok_or none e = err e
ok_or (some a) e = ok a
