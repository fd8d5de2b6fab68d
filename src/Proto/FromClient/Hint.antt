-- ===== src/Proto/FromClient/Hint.antt =====
-- `hint` of crates/proto/src/lib.rs: the bytes a message is allocated for.
use braid.Prelude.{ℕ, ◌+◌, Bool, List, Bytes}
use braid.Proto.Cursor.{Written, ◌<+>◌, put_u8}
use braid.Proto.Laws.{Costs, Costs-seq}
use braid.Proto.Laws.Words.{Costs-u8}
use braid.Proto.Values.{IsNonZero32, ForwardResetReason}
use braid.Proto.Field.{IsLawful, Anything}
use braid.Proto.Field.Str.{term_field, pattern_field, target_field, name_field}
use braid.Proto.Field.Str.Lawful.{
  chunk_field-IsLawful, term_field-IsLawful, pattern_field-IsLawful, target_field-IsLawful,
  name_field-IsLawful,
}
use braid.Proto.Field.Scalar.{
  u16_field, u32_field, u64_field, seq_field, stream_field, u16_field-IsLawful, u32_field-IsLawful,
  u64_field-IsLawful, seq_field-IsLawful, stream_field-IsLawful,
}
use braid.Proto.Field.Struct.{grid_field, range_field, reset_field, fin_field, request_field}
use braid.Proto.Field.Struct.Lawful.{
  grid_field-IsLawful, range_field-IsLawful, reset_field-IsLawful, fin_field-IsLawful,
  request_field-IsLawful,
}
use braid.Proto.Field.Vector.{sack_field}
use braid.Proto.Field.Vector.Entries.{sack_field-IsLawful}
use braid.Proto.Field.Env.{env_field, command_field}
use braid.Proto.Field.Env.Lawful.{env_field-IsLawful, command_field-IsLawful}
use braid.Proto.Forwarded.{held_version, data_chunk, put_data, put_ack, put_reset}
use braid.Proto.Forwarded.Lawful.{IsData, IsAck}
use braid.Proto.FromClient.{
  ClientMessage, hello, hello_forward, resume, input, resize, request_repaint, screen_ack, close,
  detach, pong, consumed, list_sessions, kill_session, search_history, forward_open, forward_data,
  forward_ack, forward_reset, rename_session, list_names, input_chunk, id_field, put_client,
}
use braid.Proto.FromClient.Lawful.{id_field-IsLawful, input_chunk-IsLawful, IsClientMessage}
use braid.Proto.FromClient.Bounds.{cap-since}
use braid.Forward.Wire.{max_forward_chunk, SackRun}

abbrev pub data_hint : ℕ → ℕ → Bool → Bytes → ℕ
data_hint stream off fin bytes =
    stream_field.hint stream + (u64_field.hint off + (fin_field.hint fin + data_chunk.hint bytes))

abbrev pub ack_hint : ℕ → ℕ → ℕ → List SackRun → ℕ
ack_hint stream off window held =
    stream_field.hint stream + (u64_field.hint off + (u32_field.hint window + sack_field.hint held))

abbrev pub reset_hint : ℕ → ForwardResetReason → ℕ
reset_hint stream reason = stream_field.hint stream + reset_field.hint reason

unfoldable pub client_hint : ClientMessage → ℕ
client_hint (hello versions size term env command client) =
    1
    + (range_field.hint versions
        + (grid_field.hint size
            + (term_field.hint term
                + (env_field.hint env + (command_field.hint command + id_field.hint client)))))
client_hint (hello_forward versions client) = 1 + (range_field.hint versions + id_field.hint client)
client_hint (resume versions seq request) =
    1 + (range_field.hint versions + (seq_field.hint seq + request_field.hint request))
client_hint (input seq bytes) = 1 + (seq_field.hint seq + input_chunk.hint bytes)
client_hint (resize seq size) = 1 + (seq_field.hint seq + grid_field.hint size)
client_hint (request_repaint seq) = 1 + seq_field.hint seq
client_hint (screen_ack generation version) =
    1 + (seq_field.hint generation + seq_field.hint version)
client_hint (close seq) = 1 + seq_field.hint seq
client_hint (detach seq) = 1 + seq_field.hint seq
client_hint (pong token off) = 1 + (u64_field.hint token + u64_field.hint off)
client_hint (consumed off) = 1 + u64_field.hint off
client_hint list_sessions = 1
client_hint (kill_session session_id) = 1 + id_field.hint session_id
client_hint (search_history pattern most) = 1 + (pattern_field.hint pattern + u16_field.hint most)
client_hint (forward_open seq stream target) =
    1 + (seq_field.hint seq + (stream_field.hint stream + target_field.hint target))
client_hint (forward_data stream off fin bytes) = 1 + data_hint stream off fin bytes
client_hint (forward_ack stream off window held) = 1 + ack_hint stream off window held
client_hint (forward_reset stream reason) = 1 + reset_hint stream reason
client_hint (rename_session session_id name) = 1 + (id_field.hint session_id + name_field.hint name)
client_hint list_names = 1

data_chunk-IsLawful : IsLawful data_chunk Anything
unfolding data_chunk
data_chunk-IsLawful = chunk_field-IsLawful max_forward_chunk

pub Costs-data :
    (stream off : ℕ) (fin : Bool) (bytes : Bytes)
    → IsData stream off
    → Costs (put_data stream off fin bytes) (data_hint stream off fin bytes)
unfolding put_data
Costs-data stream off fin bytes h = Costs-seq (stream_field-IsLawful.costs stream h.0) (
    Costs-seq (u64_field-IsLawful.costs off h.1)
      (Costs-seq (fin_field-IsLawful.costs fin tt) (data_chunk-IsLawful.costs bytes tt)))

pub Costs-ack :
    (spoken stream off window : ℕ) (held : List SackRun)
    → IsAck stream off window held
    → Costs (put_ack spoken stream off window held) (ack_hint stream off window held)
unfolding put_ack
Costs-ack spoken stream off window held h = Costs-seq (stream_field-IsLawful.costs stream h.0) (
    Costs-seq (u64_field-IsLawful.costs off h.1) (
      Costs-seq (u32_field-IsLawful.costs window h.2)
        (cap-since held_version spoken (sack_field-IsLawful.costs held h.3))))

pub Costs-reset :
    (stream : ℕ) (reason : ForwardResetReason)
    → IsNonZero32 stream
    → Costs (put_reset stream reason) (reset_hint stream reason)
unfolding put_reset
Costs-reset stream reason h =
    Costs-seq (stream_field-IsLawful.costs stream h) (reset_field-IsLawful.costs reason tt)

tagged : (tag : ℕ) {w : Written} {n : ℕ} → Costs w n → Costs (put_u8 tag <+> w) (1 + n)
tagged tag p = Costs-seq (Costs-u8 tag) p

-- A client's frame is allocated once: its body is never longer than its hint, for any message
-- whose fields are what their Rust types allow.
pub Costs-client :
    (spoken : ℕ) (m : ClientMessage)
    → IsClientMessage m
    → Costs (put_client spoken m) (client_hint m)
unfolding put_client client_hint IsClientMessage
Costs-client spoken (hello versions size term env command client) h = tagged _ (
    Costs-seq (range_field-IsLawful.costs versions h.0) (
      Costs-seq (grid_field-IsLawful.costs size h.1) (
        Costs-seq (term_field-IsLawful.costs term h.2) (
          Costs-seq (env_field-IsLawful.costs env h.3) (
            Costs-seq (command_field-IsLawful.costs command h.4)
              (id_field-IsLawful.costs client h.5))))))
Costs-client spoken (hello_forward versions client) h =
    tagged _
      (Costs-seq (range_field-IsLawful.costs versions h.0) (id_field-IsLawful.costs client h.1))
Costs-client spoken (resume versions seq request) h = tagged _ (
    Costs-seq (range_field-IsLawful.costs versions h.0)
      (Costs-seq (seq_field-IsLawful.costs seq h.1) (request_field-IsLawful.costs request h.2)))
Costs-client spoken (input seq bytes) h =
    tagged _ (Costs-seq (seq_field-IsLawful.costs seq h) (input_chunk-IsLawful.costs bytes tt))
Costs-client spoken (resize seq size) h =
    tagged _ (Costs-seq (seq_field-IsLawful.costs seq h.0) (grid_field-IsLawful.costs size h.1))
Costs-client spoken (request_repaint seq) h = tagged _ (seq_field-IsLawful.costs seq h)
Costs-client spoken (screen_ack generation version) h =
    tagged _
      (Costs-seq (seq_field-IsLawful.costs generation h.0) (seq_field-IsLawful.costs version h.1))
Costs-client spoken (close seq) h = tagged _ (seq_field-IsLawful.costs seq h)
Costs-client spoken (detach seq) h = tagged _ (seq_field-IsLawful.costs seq h)
Costs-client spoken (pong token off) h =
    tagged _ (Costs-seq (u64_field-IsLawful.costs token h.0) (u64_field-IsLawful.costs off h.1))
Costs-client spoken (consumed off) h = tagged _ (u64_field-IsLawful.costs off h)
Costs-client spoken list_sessions h = Costs-u8 _
Costs-client spoken (kill_session session_id) h = tagged _ (id_field-IsLawful.costs session_id h)
Costs-client spoken (search_history pattern most) h =
    tagged _
      (Costs-seq (pattern_field-IsLawful.costs pattern h.0) (u16_field-IsLawful.costs most h.1))
Costs-client spoken (forward_open seq stream target) h = tagged _ (
    Costs-seq (seq_field-IsLawful.costs seq h.0)
      (Costs-seq (stream_field-IsLawful.costs stream h.1) (target_field-IsLawful.costs target h.2)))
Costs-client spoken (forward_data stream off fin bytes) h =
    tagged _ (Costs-data stream off fin bytes h)
Costs-client spoken (forward_ack stream off window held) h =
    tagged _ (Costs-ack spoken stream off window held h)
Costs-client spoken (forward_reset stream reason) h = tagged _ (Costs-reset stream reason h)
Costs-client spoken (rename_session session_id name) h =
    tagged _
      (Costs-seq (id_field-IsLawful.costs session_id h.0) (name_field-IsLawful.costs name h.1))
Costs-client spoken list_names h = Costs-u8 _
