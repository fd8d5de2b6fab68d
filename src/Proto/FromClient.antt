-- ===== src/Proto/FromClient.antt =====
-- `ClientMessage` of crates/proto/src/lib.rs with the encoder and the decoder that `messages!`
-- makes of its list: a tag counted from `CLIENT_TAG_BASE`, then the fields in order.
pub mod Lawful
pub mod Hint
pub mod Bounds
use braid.Prelude.{ℕ, ◌+◌, ◌*◌, Bool, List, ◌==◌, if◌then◌else◌, Bytes}
use braid.Proto.Outcome.{bad_tag}
use braid.Proto.Cursor.{Written, Decoder, ◌<+>◌, put_u8, ◌>>=◌, ◌>>◌, pure, fail, u8}
use braid.Proto.Values.{GridSize, VersionRange, ResumeRequest, ForwardResetReason}
use braid.Proto.Field.{Field}
use braid.Proto.Field.Str.{
  chunk_field, term_field, pattern_field, ForwardTarget, target_field, name_field,
}
use braid.Proto.Field.Scalar.{u16_field, u64_field, seq_field, stream_field, array_field}
use braid.Proto.Field.Struct.{grid_field, range_field, request_field}
use braid.Proto.Field.Env.{Var, env_field, command_field}
use braid.Proto.Forwarded.{put_data, put_ack, put_reset, get_data, get_ack, get_reset}
use braid.Forward.Wire.{SackRun}

abbrev pub max_input_chunk : ℕ
max_input_chunk = 64 * 1024

pub data ClientMessage : Type 0 where
  hello :
      (versions : VersionRange) (size : GridSize) (term : Bytes) (env : List Var)
      (command : List Bytes) (client : Bytes)
      → ClientMessage
  hello_forward : (versions : VersionRange) (client : Bytes) → ClientMessage
  resume : (versions : VersionRange) (seq : ℕ) (request : ResumeRequest) → ClientMessage
  input : (seq : ℕ) (bytes : Bytes) → ClientMessage
  resize : (seq : ℕ) (size : GridSize) → ClientMessage
  request_repaint : (seq : ℕ) → ClientMessage
  screen_ack : (generation version : ℕ) → ClientMessage
  close : (seq : ℕ) → ClientMessage
  detach : (seq : ℕ) → ClientMessage
  pong : (token off : ℕ) → ClientMessage
  consumed : (off : ℕ) → ClientMessage
  list_sessions : ClientMessage
  kill_session : (session_id : Bytes) → ClientMessage
  search_history : (pattern : Bytes) (most : ℕ) → ClientMessage
  forward_open : (seq stream : ℕ) (target : ForwardTarget) → ClientMessage
  forward_data : (stream off : ℕ) (fin : Bool) (bytes : Bytes) → ClientMessage
  forward_ack : (stream off window : ℕ) (held : List SackRun) → ClientMessage
  forward_reset : (stream : ℕ) (reason : ForwardResetReason) → ClientMessage
  rename_session : (session_id name : Bytes) → ClientMessage
  list_names : ClientMessage

unfoldable pub input_chunk : Field Bytes
input_chunk = chunk_field max_input_chunk

-- `Client` and `Session`.
unfoldable pub id_field : Field Bytes
id_field = array_field 16

abbrev pub client_tag_base : ℕ
client_tag_base = 1

-- The body of a frame: the tag and the fields.
unfoldable pub put_client : ℕ → ClientMessage → Written
put_client spoken (hello versions size term env command client) =
    put_u8 (client_tag_base + 0)
    <+> range_field.put versions
    <+> grid_field.put size
    <+> term_field.put term
    <+> env_field.put env
    <+> command_field.put command
    <+> id_field.put client
put_client spoken (hello_forward versions client) =
    put_u8 (client_tag_base + 1) <+> range_field.put versions <+> id_field.put client
put_client spoken (resume versions seq request) =
    put_u8 (client_tag_base + 2)
    <+> range_field.put versions
    <+> seq_field.put seq
    <+> request_field.put request
put_client spoken (input seq bytes) =
    put_u8 (client_tag_base + 3) <+> seq_field.put seq <+> input_chunk.put bytes
put_client spoken (resize seq size) =
    put_u8 (client_tag_base + 4) <+> seq_field.put seq <+> grid_field.put size
put_client spoken (request_repaint seq) = put_u8 (client_tag_base + 5) <+> seq_field.put seq
put_client spoken (screen_ack generation version) =
    put_u8 (client_tag_base + 6) <+> seq_field.put generation <+> seq_field.put version
put_client spoken (close seq) = put_u8 (client_tag_base + 7) <+> seq_field.put seq
put_client spoken (detach seq) = put_u8 (client_tag_base + 8) <+> seq_field.put seq
put_client spoken (pong token off) =
    put_u8 (client_tag_base + 9) <+> u64_field.put token <+> u64_field.put off
put_client spoken (consumed off) = put_u8 (client_tag_base + 10) <+> u64_field.put off
put_client spoken list_sessions = put_u8 (client_tag_base + 11)
put_client spoken (kill_session session_id) =
    put_u8 (client_tag_base + 12) <+> id_field.put session_id
put_client spoken (search_history pattern most) =
    put_u8 (client_tag_base + 13) <+> pattern_field.put pattern <+> u16_field.put most
put_client spoken (forward_open seq stream target) =
    put_u8 (client_tag_base + 14)
    <+> seq_field.put seq
    <+> stream_field.put stream
    <+> target_field.put target
put_client spoken (forward_data stream off fin bytes) =
    put_u8 (client_tag_base + 15) <+> put_data stream off fin bytes
put_client spoken (forward_ack stream off window held) =
    put_u8 (client_tag_base + 16) <+> put_ack spoken stream off window held
put_client spoken (forward_reset stream reason) =
    put_u8 (client_tag_base + 17) <+> put_reset stream reason
put_client spoken (rename_session session_id name) =
    put_u8 (client_tag_base + 18) <+> id_field.put session_id <+> name_field.put name
put_client spoken list_names = put_u8 (client_tag_base + 19)

unfoldable pub get_hello : Decoder ClientMessage
get_hello = do
  versions ← range_field.get
  size ← grid_field.get
  term ← term_field.get
  env ← env_field.get
  command ← command_field.get
  client ← id_field.get
  pure (hello versions size term env command client)

unfoldable pub get_hello_forward : Decoder ClientMessage
get_hello_forward = do
  versions ← range_field.get
  client ← id_field.get
  pure (hello_forward versions client)

unfoldable pub get_resume : Decoder ClientMessage
get_resume = do
  versions ← range_field.get
  seq ← seq_field.get
  request ← request_field.get
  pure (resume versions seq request)

unfoldable pub get_forward_open : Decoder ClientMessage
get_forward_open = do
  seq ← seq_field.get
  stream ← stream_field.get
  target ← target_field.get
  pure (forward_open seq stream target)

-- A message of one field, and of two.
unfoldable pub get_one : {A : Type 0} → Field A → (A → ClientMessage) → Decoder ClientMessage
get_one first message = do x ← first.get; pure (message x)

unfoldable pub get_two :
    {A B : Type 0} → Field A → Field B → (A → B → ClientMessage) → Decoder ClientMessage
get_two first second message = do x ← first.get; y ← second.get; pure (message x y)

-- The fields that follow a tag counted from the base; there is no tag past the last.
unfoldable pub client_fields : ℕ → ℕ → Decoder ClientMessage
client_fields spoken tag =
    if tag == client_tag_base + 0
    then get_hello
    else if tag == client_tag_base + 1
    then get_hello_forward
    else if tag == client_tag_base + 2
    then get_resume
    else if tag == client_tag_base + 3
    then get_two seq_field input_chunk input
    else if tag == client_tag_base + 4
    then get_two seq_field grid_field resize
    else if tag == client_tag_base + 5
    then get_one seq_field request_repaint
    else if tag == client_tag_base + 6
    then get_two seq_field seq_field screen_ack
    else if tag == client_tag_base + 7
    then get_one seq_field close
    else if tag == client_tag_base + 8
    then get_one seq_field detach
    else if tag == client_tag_base + 9
    then get_two u64_field u64_field pong
    else if tag == client_tag_base + 10
    then get_one u64_field consumed
    else if tag == client_tag_base + 11
    then pure list_sessions
    else if tag == client_tag_base + 12
    then get_one id_field kill_session
    else if tag == client_tag_base + 13
    then get_two pattern_field u16_field search_history
    else if tag == client_tag_base + 14
    then get_forward_open
    else if tag == client_tag_base + 15
    then get_data forward_data
    else if tag == client_tag_base + 16
    then get_ack spoken forward_ack
    else if tag == client_tag_base + 17
    then get_reset forward_reset
    else if tag == client_tag_base + 18
    then get_two id_field name_field rename_session
    else if tag == client_tag_base + 19
    then pure list_names
    else fail (bad_tag tag)

unfoldable pub get_client : ℕ → Decoder ClientMessage
get_client spoken = do tag ← u8; client_fields spoken tag
