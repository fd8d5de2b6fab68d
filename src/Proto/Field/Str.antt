-- ===== src/Proto/Field/Str.antt =====
-- The fields of crates/proto/src/lib.rs that are a run of bytes or a string behind its length.
pub mod Lawful
use braid.Prelude.{ℕ, ◌+◌, min, Bool, not, ◌||◌, ltb, ◌==◌, length, u32_max, Bytes}
use braid.Proto.Outcome.{
  oversize, invalid_field, EncodeError, too_large, bad_term, bad_session_name, bad_pattern,
  bad_forward_target,
}
use braid.Proto.Cursor.{
  Written, Decoder, ◌<+>◌, written, refuse_if, put_u8, put_u16, put_u32, ◌>>=◌, ◌>>◌, pure,
  reject_if, take_bytes, u8, u16, u32,
}
use braid.Proto.Text.{has_control, reject_control, str, max_term, valid_term}
use braid.Proto.Field.{Field}

-- `try_from(len).map_err(e)` in front of the bytes, for two of the widths of a length.
abbrev pub u16_prefixed : EncodeError → Bytes → Written
u16_prefixed e value =
    refuse_if (ltb 65535 (length value)) e (put_u16 (length value) <+> written value)

abbrev pub u32_prefixed : EncodeError → Bytes → Written
u32_prefixed e value =
    refuse_if (ltb u32_max (length value)) e (put_u32 (length value) <+> written value)

-- `Chunk<MAX>`.
unfoldable pub chunk_field : ℕ → Field Bytes
chunk_field most = record {
  hint = λ value. 4 + length value;
  put = λ value. refuse_if (ltb most (length value)) too_large (u32_prefixed too_large value);
  get = (do
    len ← u32
    reject_if (ltb (min most u32_max) len) (oversize len (min most u32_max))
    take_bytes len);
}

unfoldable pub term_field : Field Bytes
term_field = record {
  hint = λ value. 2 + length value;
  put = λ value. refuse_if (not (valid_term value)) bad_term (u16_prefixed bad_term value);
  get = (do
    len ← u16
    reject_if (ltb max_term len) invalid_field
    term ← str len
    reject_if (not (valid_term term)) invalid_field
    pure term);
}

abbrev pub max_pattern : ℕ
max_pattern = 256

abbrev pub is_empty : Bytes → Bool
is_empty value = length value == 0

unfoldable pub pattern_field : Field Bytes
pattern_field = record {
  hint = λ value. 2 + length value;
  put = λ value.
      refuse_if (is_empty value || ltb max_pattern (length value) || has_control value) bad_pattern
        (u16_prefixed bad_pattern value);
  get = (do
    len ← u16
    reject_if (ltb max_pattern len) invalid_field
    pattern ← str len
    reject_control pattern
    reject_if (is_empty pattern) invalid_field
    pure pattern);
}

pub record ForwardTarget : Type 0 where
  pub host : Bytes
  pub port : ℕ

abbrev pub max_forward_host : ℕ
max_forward_host = 255

unfoldable pub encode_forward_target : ForwardTarget → Written
encode_forward_target target =
    refuse_if
      (is_empty target.host
        || ltb max_forward_host (length target.host)
        || has_control target.host
        || (target.port == 0))
      bad_forward_target
      (refuse_if (ltb 255 (length target.host)) bad_forward_target
        (put_u8 (length target.host) <+> written target.host <+> put_u16 target.port))

unfoldable pub decode_forward_target : Decoder ForwardTarget
decode_forward_target = do
  len ← u8
  host ← str len
  reject_control host
  port ← u16
  reject_if (is_empty host || (port == 0)) invalid_field
  pure (record { host = host; port = port })

unfoldable pub target_field : Field ForwardTarget
target_field = record {
  hint = λ value. 3 + length value.host;
  put = encode_forward_target;
  get = decode_forward_target;
}

abbrev pub max_session_name : ℕ
max_session_name = 64

unfoldable pub name_field : Field Bytes
name_field = record {
  hint = λ value. 1 + length value;
  put = λ value. refuse_if (ltb 255 (length value)) bad_session_name (
      refuse_if (ltb max_session_name (length value) || has_control value) bad_session_name
        (put_u8 (length value) <+> written value));
  get = (do
    len ← u8
    reject_if (ltb max_session_name len) invalid_field
    name ← str len
    reject_control name
    pure name);
}
