-- ===== src/Proto/Field/Vector.antt =====
-- The fields of crates/proto/src/lib.rs that are a count and then so many entries.
pub mod Lawful
pub mod Entries
use braid.Prelude.{ℕ, zero, suc, ◌+◌, ◌*◌, ◌||◌, List, [], ◌∷◌, ltb, length, Bytes}
use braid.Proto.Outcome.{invalid_field, too_large, bad_session_name, bad_match}
use braid.Proto.Cursor.{
  Written, Decoder, ◌<+>◌, written, refuse_if, put_u8, put_u16, put_u32, put_u64, ◌>>=◌, ◌>>◌, pure,
  or_fail, reject_if, array, u8, u16, u32, u64,
}
use braid.Proto.Values.{non_zero, GridSize, grid_size}
use braid.Proto.Text.{has_control, reject_control, str}
use braid.Proto.Field.{Field}
use braid.Proto.Field.Str.{u16_prefixed, is_empty, name_field}
use braid.Forward.Wire.{max_ack_runs, SackRun, sack_runs}

unfoldable pub put_each : {A : Type 0} → (A → Written) → List A → Written
put_each put [] = written []
put_each put (x ∷ xs) = put x <+> put_each put xs

unfoldable pub repeat : {A : Type 0} → ℕ → Decoder A → Decoder (List A)
repeat zero get = pure []
repeat (suc n) get = do x ← get; xs ← repeat n get; pure (x ∷ xs)

unfoldable pub sum : {A : Type 0} → (A → ℕ) → List A → ℕ
sum size [] = 0
sum size (x ∷ xs) = size x + sum size xs

abbrev pub max_command : ℕ
max_command = 128

abbrev pub max_sessions : ℕ
max_sessions = 256

pub record SessionSummary : Type 0 where
  pub session_id : Bytes
  pub size : GridSize
  pub attachments : ℕ
  pub active_unix : ℕ
  pub command : Bytes

unfoldable pub put_session : SessionSummary → Written
put_session session =
    refuse_if (ltb max_command (length session.command) || has_control session.command)
      bad_session_name
      (written session.session_id
        <+> put_u16 session.size.cols
        <+> put_u16 session.size.rows
        <+> put_u16 session.attachments
        <+> put_u64 session.active_unix
        <+> refuse_if (ltb 255 (length session.command)) bad_session_name
            (put_u8 (length session.command) <+> written session.command))

unfoldable pub get_session : Decoder SessionSummary
get_session = do
  session_id ← array 16
  cols ← u16
  rows ← u16
  size ← or_fail (grid_size cols rows) invalid_field
  attachments ← u16
  active_unix ← u64
  len ← u8
  reject_if (ltb max_command len) invalid_field
  command ← str len
  reject_control command
  pure (record {
    session_id = session_id;
    size = size;
    attachments = attachments;
    active_unix = active_unix;
    command = command;
  })

-- A `u16` count of at most `most` entries.
unfoldable pub list_field : {A : Type 0} → ℕ → (A → ℕ) → (A → Written) → Decoder A → Field (List A)
list_field most size put get = record {
  hint = λ value. 2 + sum size value;
  put = λ value. refuse_if (ltb most (length value)) too_large (
      refuse_if (ltb 65535 (length value)) too_large
        (put_u16 (length value) <+> put_each put value));
  get = (do count ← u16; reject_if (ltb most count) invalid_field; repeat count get);
}

unfoldable pub sessions_field : Field (List SessionSummary)
sessions_field =
    list_field max_sessions (λ session. 31 + length session.command) put_session get_session

pub record SessionName : Type 0 where
  pub session_id : Bytes
  pub name : Bytes

unfoldable pub put_named : SessionName → Written
put_named named =
    refuse_if (is_empty named.name) bad_session_name
      (written named.session_id <+> name_field.put named.name)

unfoldable pub get_named : Decoder SessionName
get_named = do
  session_id ← array 16
  name ← name_field.get
  reject_if (is_empty name) invalid_field
  pure (record { session_id = session_id; name = name })

unfoldable pub names_field : Field (List SessionName)
names_field = list_field max_sessions (λ named. 17 + length named.name) put_named get_named

abbrev pub max_matches : ℕ
max_matches = 256

abbrev pub max_match_line : ℕ
max_match_line = 512

pub record SearchMatch : Type 0 where
  pub session_id : Bytes
  pub distance : ℕ
  pub line : Bytes

unfoldable pub put_match : SearchMatch → Written
put_match found =
    refuse_if (ltb max_match_line (length found.line) || has_control found.line) bad_match
      (written found.session_id <+> put_u32 found.distance <+> u16_prefixed bad_match found.line)

unfoldable pub get_match : Decoder SearchMatch
get_match = do
  session_id ← array 16
  distance ← u32
  len ← u16
  reject_if (ltb max_match_line len) invalid_field
  line ← str len
  reject_control line
  pure (record { session_id = session_id; distance = distance; line = line })

unfoldable pub matches_field : Field (List SearchMatch)
matches_field = list_field max_matches (λ found. 24 + length found.line) put_match get_match

unfoldable pub put_run : SackRun → Written
put_run run = put_u32 run.gap <+> put_u32 run.len

unfoldable pub get_run : Decoder SackRun
get_run = do
  stated ← u32
  gap ← or_fail (non_zero stated) invalid_field
  named ← u32
  len ← or_fail (non_zero named) invalid_field
  pure (record { gap = gap; len = len })

unfoldable pub sack_field : Field (List SackRun)
sack_field = record {
  hint = λ runs. 1 + 8 * length runs;
  put = λ runs. refuse_if (ltb 255 (length runs)) too_large (
      refuse_if (ltb max_ack_runs (length runs)) too_large
        (put_u8 (length runs) <+> put_each put_run runs));
  get = (do
    count ← u8
    reject_if (ltb max_ack_runs count) invalid_field
    runs ← repeat count get_run
    or_fail (sack_runs runs) invalid_field);
}
