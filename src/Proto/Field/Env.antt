-- ===== src/Proto/Field/Env.antt =====
-- The environment and the command of a `Hello`, crates/proto/src/lib.rs: lists whose size is
-- bounded as a whole.
pub mod Lawful
use braid.Prelude.{ℕ, zero, suc, ◌+◌, Bool, false, not, ◌||◌, List, [], ◌∷◌, ltb, length, Bytes}
use braid.Proto.Outcome.{invalid_field, too_large, bad_env, bad_command}
use braid.Proto.Cursor.{
  Written, Decoder, ◌<+>◌, written, refuse_if, put_u8, ◌>>=◌, ◌>>◌, pure, reject_if, u8, u16,
}
use braid.Proto.Text.{has_control, reject_control, str, valid_env_name}
use braid.Proto.Field.{Field}
use braid.Proto.Field.Scalar.{word}
use braid.Proto.Field.Str.{u16_prefixed, is_empty}
use braid.Proto.Field.Vector.{put_each, sum, max_command}

abbrev pub max_env : ℕ
max_env = 4096

abbrev pub max_env_vars : ℕ
max_env_vars = 16

pub record Var : Type 0 where
  pub name : Bytes
  pub value : Bytes

abbrev pub var_size : Var → ℕ
var_size var = length var.name + length var.value + 3

unfoldable pub put_var : Var → Written
put_var var = refuse_if (not (valid_env_name var.name) || has_control var.value) bad_env (
    refuse_if (ltb 255 (length var.name)) too_large
      (put_u8 (length var.name) <+> written var.name <+> u16_prefixed too_large var.value))

unfoldable pub encode_env : List Var → Written
encode_env env = refuse_if (ltb max_env_vars (length env)) bad_env (
    refuse_if (ltb max_env (sum var_size env)) bad_env
      (refuse_if (ltb 255 (length env)) bad_env (put_u8 (length env) <+> put_each put_var env)))

-- `total` is what the variables before came to.
unfoldable pub get_vars : ℕ → ℕ → Decoder (List Var)
get_vars zero total = pure []
get_vars (suc n) total = do
  name_len ← u8
  name ← str name_len
  value_len ← u16
  value ← str value_len
  let now = total + (name_len + value_len + 3)
  reject_if (ltb max_env now || not (valid_env_name name)) invalid_field
  reject_control value
  env ← get_vars n now
  pure (record { name = name; value = value } ∷ env)

unfoldable pub decode_env : Decoder (List Var)
decode_env = do count ← u8; reject_if (ltb max_env_vars count) invalid_field; get_vars count 0

unfoldable pub env_field : Field (List Var)
env_field = record { hint = λ env. 1 + sum var_size env; put = encode_env; get = decode_env }

abbrev pub max_command_words : ℕ
max_command_words = 16

abbrev pub word_size : Bytes → ℕ
word_size word = length word + 2

unfoldable pub any_empty : List Bytes → Bool
any_empty [] = false
any_empty (word ∷ words) = is_empty word || any_empty words

unfoldable pub encode_command : List Bytes → Written
encode_command command = refuse_if (ltb max_command_words (length command)) bad_command (
    refuse_if (ltb max_command (sum word_size command)) bad_command (
      refuse_if (any_empty command) bad_command (
        refuse_if (ltb 255 (length command)) bad_command
          (put_u8 (length command) <+> put_each (u16_prefixed bad_command) command))))

unfoldable pub get_words : ℕ → ℕ → Decoder (List Bytes)
get_words zero total = pure []
get_words (suc n) total = do
  len ← u16
  word ← str len
  let now = total + (len + 2)
  reject_if (ltb max_command now || is_empty word) invalid_field
  words ← get_words n now
  pure (word ∷ words)

unfoldable pub decode_command : Decoder (List Bytes)
decode_command = do
  count ← u8
  reject_if (ltb max_command_words count) invalid_field
  get_words count 0

unfoldable pub command_field : Field (List Bytes)
command_field = record {
  hint = λ command. 1 + sum word_size command;
  put = encode_command;
  get = decode_command;
}
