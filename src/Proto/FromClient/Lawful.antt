-- ===== src/Proto/FromClient/Lawful.antt =====
-- Every message of a client is read back from the bytes it was written to.
use braid.Prelude.{ℕ, List, Bytes}
use braid.Proto.Cursor.{◌<+>◌}
use braid.Proto.Laws.{Trips, Trips-seq, Trips-last, Trips-end, Trips-nothing}
use braid.Proto.Laws.Words.{Trips-u8}
use braid.Proto.Values.{
  IsU16, IsU64, IsNonZero32, IsNonZero64, IsArray, GridSize, IsGridSize, VersionRange,
  IsVersionRange, IsResumeRequest,
}
use braid.Proto.Field.{Field, IsLawful, Anything}
use braid.Proto.Field.Str.{term_field}
use braid.Proto.Field.Str.Lawful.{
  IsString, chunk_field-IsLawful, term_field-IsLawful, pattern_field-IsLawful, IsForwardTarget,
  target_field-IsLawful, name_field-IsLawful,
}
use braid.Proto.Field.Scalar.{
  u16_field-IsLawful, u64_field-IsLawful, seq_field-IsLawful, stream_field-IsLawful,
  array_field-IsLawful,
}
use braid.Proto.Field.Struct.{grid_field, range_field}
use braid.Proto.Field.Struct.Lawful.{
  grid_field-IsLawful, range_field-IsLawful, request_field-IsLawful,
}
use braid.Proto.Field.Vector.Lawful.{All}
use braid.Proto.Field.Env.{Var, env_field, command_field}
use braid.Proto.Field.Env.Lawful.{IsVar, env_field-IsLawful, command_field-IsLawful}
use braid.Proto.Forwarded.Lawful.{held_at, IsData, IsAck, Trips-data, Trips-reset, Trips-ack}
use braid.Proto.FromClient.{
  max_input_chunk, ClientMessage, hello, hello_forward, resume, input, resize, request_repaint,
  screen_ack, close, detach, pong, consumed, list_sessions, kill_session, search_history,
  forward_open, forward_data, forward_ack, forward_reset, rename_session, list_names, input_chunk,
  id_field, put_client, get_hello, get_hello_forward, get_resume, get_forward_open, get_one,
  get_two, client_fields, get_client,
}

pub id_field-IsLawful : IsLawful id_field (IsArray 16)
unfolding id_field
id_field-IsLawful = array_field-IsLawful 16

pub input_chunk-IsLawful : IsLawful input_chunk Anything
unfolding input_chunk
input_chunk-IsLawful = chunk_field-IsLawful max_input_chunk

-- What the Rust types keep of a message.
unfoldable pub IsClientMessage : ClientMessage → Type 0
IsClientMessage (hello versions size term env command client) =
    IsVersionRange versions
    × IsGridSize size
    × IsString term
    × All IsVar env
    × All IsString command
    × IsArray 16 client
IsClientMessage (hello_forward versions client) = IsVersionRange versions × IsArray 16 client
IsClientMessage (resume versions seq request) =
    IsVersionRange versions × IsNonZero64 seq × IsResumeRequest request
IsClientMessage (input seq bytes) = IsNonZero64 seq
IsClientMessage (resize seq size) = IsNonZero64 seq × IsGridSize size
IsClientMessage (request_repaint seq) = IsNonZero64 seq
IsClientMessage (screen_ack generation version) = IsNonZero64 generation × IsNonZero64 version
IsClientMessage (close seq) = IsNonZero64 seq
IsClientMessage (detach seq) = IsNonZero64 seq
IsClientMessage (pong token off) = IsU64 token × IsU64 off
IsClientMessage (consumed off) = IsU64 off
IsClientMessage list_sessions = Unit
IsClientMessage (kill_session session_id) = IsArray 16 session_id
IsClientMessage (search_history pattern most) = IsString pattern × IsU16 most
IsClientMessage (forward_open seq stream target) =
    IsNonZero64 seq × IsNonZero32 stream × IsForwardTarget target
IsClientMessage (forward_data stream off fin bytes) = IsData stream off
IsClientMessage (forward_ack stream off window held) = IsAck stream off window held
IsClientMessage (forward_reset stream reason) = IsNonZero32 stream
IsClientMessage (rename_session session_id name) = IsArray 16 session_id × IsString name
IsClientMessage list_names = Unit

-- What of a message a version carries.
unfoldable pub client_at : ℕ → ClientMessage → ClientMessage
client_at spoken (forward_ack stream off window held) =
    forward_ack stream off window (held_at spoken held)
client_at spoken message = message

Trips-one :
    {A : Type 0} {f : Field A} {Fits : A → Type 0} (laws : IsLawful f Fits)
    (message : A → ClientMessage) (x : A)
    → Fits x
    → Trips (f.put x) (get_one f message) (message x)
unfolding get_one
Trips-one laws message x h = Trips-last message (laws.trips x h)

Trips-two :
    {A B : Type 0} {f : Field A} {g : Field B} {Fits : A → Type 0} {Suits : B → Type 0}
    (laws : IsLawful f Fits) (rules : IsLawful g Suits) (message : A → B → ClientMessage) (x : A)
    (y : B)
    → Fits x
    → Suits y
    → Trips (f.put x <+> g.put y) (get_two f g message) (message x y)
unfolding get_two
Trips-two laws rules message x y h k =
    Trips-seq _ (laws.trips x h) (Trips-last (message x) (rules.trips y k))

Trips-hello :
    (versions : VersionRange) (size : GridSize) (term : Bytes) (env : List Var)
    (command : List Bytes) (client : Bytes)
    → IsClientMessage (hello versions size term env command client)
    → Trips
        (range_field.put versions
          <+> grid_field.put size
          <+> term_field.put term
          <+> env_field.put env
          <+> command_field.put command
          <+> id_field.put client)
        get_hello
        (hello versions size term env command client)
unfolding get_hello IsClientMessage
Trips-hello versions size term env command client h =
    Trips-seq _ (range_field-IsLawful.trips versions h.0) (
      Trips-seq _ (grid_field-IsLawful.trips size h.1) (
        Trips-seq _ (term_field-IsLawful.trips term h.2) (
          Trips-seq _ (env_field-IsLawful.trips env h.3) (
            Trips-seq _ (command_field-IsLawful.trips command h.4)
              (Trips-last _ (id_field-IsLawful.trips client h.5))))))

pub Trips-client :
    (spoken : ℕ) (m : ClientMessage)
    → IsClientMessage m
    → Trips (put_client spoken m) (get_client spoken) (client_at spoken m)
unfolding put_client get_client client_fields client_at get_hello_forward get_resume
    get_forward_open IsClientMessage
Trips-client spoken (hello versions size term env command client) h =
    Trips-seq _ (Trips-u8 1) (Trips-hello versions size term env command client h)
Trips-client spoken (hello_forward versions client) h = Trips-seq _ (Trips-u8 2) (
    Trips-seq _ (range_field-IsLawful.trips versions h.0)
      (Trips-last _ (id_field-IsLawful.trips client h.1)))
Trips-client spoken (resume versions seq request) h = Trips-seq _ (Trips-u8 3) (
    Trips-seq _ (range_field-IsLawful.trips versions h.0) (
      Trips-seq _ (seq_field-IsLawful.trips seq h.1)
        (Trips-last _ (request_field-IsLawful.trips request h.2))))
Trips-client spoken (input seq bytes) h =
    Trips-seq _ (Trips-u8 4)
      (Trips-two seq_field-IsLawful input_chunk-IsLawful input seq bytes h tt)
Trips-client spoken (resize seq size) h =
    Trips-seq _ (Trips-u8 5)
      (Trips-two seq_field-IsLawful grid_field-IsLawful resize seq size h.0 h.1)
Trips-client spoken (request_repaint seq) h =
    Trips-seq _ (Trips-u8 6) (Trips-one seq_field-IsLawful request_repaint seq h)
Trips-client spoken (screen_ack generation version) h =
    Trips-seq _ (Trips-u8 7)
      (Trips-two seq_field-IsLawful seq_field-IsLawful screen_ack generation version h.0 h.1)
Trips-client spoken (close seq) h =
    Trips-seq _ (Trips-u8 8) (Trips-one seq_field-IsLawful close seq h)
Trips-client spoken (detach seq) h =
    Trips-seq _ (Trips-u8 9) (Trips-one seq_field-IsLawful detach seq h)
Trips-client spoken (pong token off) h =
    Trips-seq _ (Trips-u8 10)
      (Trips-two u64_field-IsLawful u64_field-IsLawful pong token off h.0 h.1)
Trips-client spoken (consumed off) h =
    Trips-seq _ (Trips-u8 11) (Trips-one u64_field-IsLawful consumed off h)
Trips-client spoken list_sessions h = Trips-end _ (Trips-u8 12) Trips-nothing
Trips-client spoken (kill_session session_id) h =
    Trips-seq _ (Trips-u8 13) (Trips-one id_field-IsLawful kill_session session_id h)
Trips-client spoken (search_history pattern most) h =
    Trips-seq _ (Trips-u8 14)
      (Trips-two pattern_field-IsLawful u16_field-IsLawful search_history pattern most h.0 h.1)
Trips-client spoken (forward_open seq stream target) h = Trips-seq _ (Trips-u8 15) (
    Trips-seq _ (seq_field-IsLawful.trips seq h.0) (
      Trips-seq _ (stream_field-IsLawful.trips stream h.1)
        (Trips-last _ (target_field-IsLawful.trips target h.2))))
Trips-client spoken (forward_data stream off fin bytes) h =
    Trips-seq _ (Trips-u8 16) (Trips-data forward_data stream off fin bytes h)
Trips-client spoken (forward_ack stream off window held) h =
    Trips-seq _ (Trips-u8 17) (Trips-ack forward_ack spoken stream off window held h)
Trips-client spoken (forward_reset stream reason) h =
    Trips-seq _ (Trips-u8 18) (Trips-reset forward_reset stream reason h)
Trips-client spoken (rename_session session_id name) h =
    Trips-seq _ (Trips-u8 19)
      (Trips-two id_field-IsLawful name_field-IsLawful rename_session session_id name h.0 h.1)
Trips-client spoken list_names h = Trips-end _ (Trips-u8 20) Trips-nothing
