-- ===== src/Proto/Forwarded.antt =====
-- The three messages of a forwarded connection that cross in both directions,
-- crates/proto/src/lib.rs: their fields, whatever message is made of them.
pub mod Lawful
use braid.Prelude.{ℕ, Bool, ◌||◌, List, [], ltb, leb, if◌then◌else◌, Bytes}
use braid.Proto.Outcome.{ok}
use braid.Proto.Cursor.{Written, Decoder, ◌<+>◌, written, ◌>>=◌, ◌>>◌, pure, exhausted}
use braid.Proto.Values.{ForwardResetReason}
use braid.Proto.Field.{Field}
use braid.Proto.Field.Str.{chunk_field}
use braid.Proto.Field.Scalar.{u32_field, u64_field, stream_field}
use braid.Proto.Field.Struct.{reset_field, fin_field}
use braid.Proto.Field.Vector.{sack_field}
use braid.Forward.Wire.{max_forward_chunk, SackRun}

-- `since 14`.
abbrev pub held_version : ℕ
held_version = 14

-- `get_field!` with `since`: a field that the version has not, or that begins where the body
-- ends, takes its default.
unfoldable pub get_since : {A : Type 0} → ℕ → ℕ → A → Decoder A → Decoder A
get_since since spoken default get c =
    if ltb spoken since || exhausted c then ok (default, c) else get c

-- `put_field!` with `since`.
unfoldable pub put_since : ℕ → ℕ → Written → Written
put_since since spoken put = if leb since spoken then put else written []

unfoldable pub data_chunk : Field Bytes
data_chunk = chunk_field max_forward_chunk

unfoldable pub put_data : ℕ → ℕ → Bool → Bytes → Written
put_data stream off fin bytes =
    stream_field.put stream <+> u64_field.put off <+> fin_field.put fin <+> data_chunk.put bytes

unfoldable pub put_ack : ℕ → ℕ → ℕ → ℕ → List SackRun → Written
put_ack spoken stream off window held =
    stream_field.put stream
    <+> u64_field.put off
    <+> u32_field.put window
    <+> put_since held_version spoken (sack_field.put held)

unfoldable pub put_reset : ℕ → ForwardResetReason → Written
put_reset stream reason = stream_field.put stream <+> reset_field.put reason

module _ {A : Type 0} where
  unfoldable pub get_data : (ℕ → ℕ → Bool → Bytes → A) → Decoder A
  get_data message = do
    stream ← stream_field.get
    off ← u64_field.get
    fin ← fin_field.get
    bytes ← data_chunk.get
    pure (message stream off fin bytes)

  unfoldable pub get_ack : ℕ → (ℕ → ℕ → ℕ → List SackRun → A) → Decoder A
  get_ack spoken message = do
    stream ← stream_field.get
    off ← u64_field.get
    window ← u32_field.get
    held ← get_since held_version spoken [] sack_field.get
    pure (message stream off window held)

  unfoldable pub get_reset : (ℕ → ForwardResetReason → A) → Decoder A
  get_reset message = do
    stream ← stream_field.get
    reason ← reset_field.get
    pure (message stream reason)
