-- ===== src/Proto/FromClient/Bounds.antt =====
-- How long what a client sends can get, crates/proto/src/lib.rs: whatever the encoder lets
-- through is bounded by a constant, field by field.
use braid.Prelude.{ℕ, ◌+◌, ◌*◌, ◌≤◌, inl, inr, Bool, List, [], arith, leb, Bool-cases, Bytes}
use braid.Proto.Outcome.{bad_command}
use braid.Proto.Cursor.{Written, ◌<+>◌, put_u8}
use braid.Proto.Laws.{
  Costs, Costs-seq, Costs-written, Costs-refuse_if, Costs-refuse_if_let, Costs-more,
}
use braid.Proto.Laws.Words.{Costs-u8, Costs-u16, Costs-u32}
use braid.Proto.Values.{IsNonZero32, ForwardResetReason}
use braid.Proto.Text.{max_term}
use braid.Proto.Field.Str.{
  u16_prefixed, chunk_field, term_field, max_pattern, pattern_field, ForwardTarget,
  max_forward_host, encode_forward_target, target_field, max_session_name, name_field,
}
use braid.Proto.Field.Str.Lawful.{IsString, Costs-written_all, short_term}
use braid.Proto.Field.Scalar.{
  u16_field, u32_field, u64_field, seq_field, stream_field, array_field, u16_field-IsLawful,
  u32_field-IsLawful, u64_field-IsLawful, seq_field-IsLawful, stream_field-IsLawful,
}
use braid.Proto.Field.Struct.{grid_field, range_field, reset_field, fin_field, request_field}
use braid.Proto.Field.Struct.Lawful.{
  grid_field-IsLawful, range_field-IsLawful, reset_field-IsLawful, fin_field-IsLawful,
  request_field-IsLawful,
}
use braid.Proto.Field.Vector.{max_command, put_run, sack_field}
use braid.Proto.Field.Vector.Lawful.{All, Costs-each}
use braid.Proto.Field.Vector.Entries.{IsSackRun, Costs-run, sum-const}
use braid.Proto.Field.Env.{
  max_env, Var, var_size, put_var, encode_env, env_field, word_size, encode_command, command_field,
}
use braid.Proto.Field.Env.Lawful.{IsVar, Costs-var, Costs-word}
use braid.Proto.Forwarded.{put_since, data_chunk, put_data, put_ack, put_reset}
use braid.Proto.Forwarded.Lawful.{IsData, IsAck}
use braid.Proto.FromClient.{
  max_input_chunk, ClientMessage, hello, hello_forward, resume, input, resize, request_repaint,
  screen_ack, close, detach, pong, consumed, list_sessions, kill_session, search_history,
  forward_open, forward_data, forward_ack, forward_reset, rename_session, list_names, input_chunk,
  id_field, put_client,
}
use braid.Proto.FromClient.Lawful.{id_field-IsLawful, IsClientMessage}
use braid.Forward.Wire.{max_forward_chunk, max_ack_runs, SackRun}

cap-chunk : (most : ℕ) (v : Bytes) → Costs ((chunk_field most).put v) (4 + most)
unfolding chunk_field
cap-chunk most v = Costs-refuse_if_let _ _ (λ small.
    Costs-more (Costs-refuse_if _ _ (Costs-seq (Costs-u32 _) (Costs-written_all v))) (ground arith))

cap-term : (v : Bytes) → Costs (term_field.put v) (2 + max_term)
unfolding term_field
cap-term v = Costs-refuse_if_let _ _ (λ valid.
    Costs-more (Costs-refuse_if _ _ (Costs-seq (Costs-u16 _) (Costs-written_all v)))
      (ground (arith, short_term v valid)))

cap-pattern : (v : Bytes) → Costs (pattern_field.put v) (2 + max_pattern)
unfolding pattern_field
cap-pattern v = Costs-refuse_if_let _ _ (λ valid.
    Costs-more (Costs-refuse_if _ _ (Costs-seq (Costs-u16 _) (Costs-written_all v))) (ground arith))

cap-name : (v : Bytes) → Costs (name_field.put v) (1 + max_session_name)
unfolding name_field
cap-name v = Costs-refuse_if _ _ (
    Costs-refuse_if_let _ _
      (λ valid. Costs-more (Costs-seq (Costs-u8 _) (Costs-written_all v)) (ground arith)))

cap-target : (t : ForwardTarget) → Costs (target_field.put t) (3 + max_forward_host)
unfolding target_field encode_forward_target
cap-target t = Costs-refuse_if_let _ _ (λ valid.
    Costs-more
      (Costs-refuse_if _ _
        (Costs-seq (Costs-u8 _) (Costs-seq (Costs-written_all t.host) (Costs-u16 t.port))))
      (ground arith))

cap-env : (env : List Var) → All IsVar env → Costs (env_field.put env) (1 + max_env)
unfolding env_field encode_env
cap-env env h = Costs-refuse_if _ _ (
    Costs-refuse_if_let _ _ (λ small.
      Costs-more
        (Costs-refuse_if _ _
          (Costs-seq (Costs-u8 _) (Costs-each put_var IsVar var_size Costs-var env h)))
        (ground arith)))

cap-command :
    (words : List Bytes) → All IsString words → Costs (command_field.put words) (1 + max_command)
unfolding command_field encode_command
cap-command words h = Costs-refuse_if _ _ (
    Costs-refuse_if_let _ _ (λ small.
      Costs-more
        (Costs-refuse_if _ _ (
          Costs-refuse_if _ _ (
            Costs-seq (Costs-u8 _)
              (Costs-each (u16_prefixed bad_command) IsString word_size Costs-word words h))))
        (ground arith)))

cap-sack :
    (runs : List SackRun) → All IsSackRun runs → Costs (sack_field.put runs) (1 + 8 * max_ack_runs)
unfolding sack_field
cap-sack runs h = Costs-refuse_if _ _ (
    Costs-refuse_if_let _ _ (λ few.
      Costs-more (Costs-seq (Costs-u8 _) (Costs-each put_run IsSackRun _ Costs-run runs h))
        (ground (arith, sum-const runs))))

pub cap-data :
    (stream off : ℕ) (fin : Bool) (bytes : Bytes)
    → IsData stream off
    → Costs (put_data stream off fin bytes) (17 + max_forward_chunk)
unfolding put_data data_chunk stream_field u64_field fin_field
cap-data stream off fin bytes h = Costs-seq (stream_field-IsLawful.costs stream h.0) (
    Costs-seq (u64_field-IsLawful.costs off h.1)
      (Costs-seq (fin_field-IsLawful.costs fin tt) (cap-chunk max_forward_chunk bytes)))

pub cap-since :
    (since spoken : ℕ) {w : Written} {n : ℕ} → Costs w n → Costs (put_since since spoken w) n
unfolding put_since
cap-since since spoken p = elim (Bool-cases (leb since spoken)) [
  | inl new ↦ rw new p
  | inr old ↦ rw old (Costs-written [] (omega arith))
]

pub cap-ack :
    (spoken stream off window : ℕ) (held : List SackRun)
    → IsAck stream off window held
    → Costs (put_ack spoken stream off window held) (17 + 8 * max_ack_runs)
unfolding put_ack stream_field u64_field u32_field
cap-ack spoken stream off window held h = Costs-seq (stream_field-IsLawful.costs stream h.0) (
    Costs-seq (u64_field-IsLawful.costs off h.1)
      (Costs-seq (u32_field-IsLawful.costs window h.2) (cap-since _ _ (cap-sack held h.3))))

pub cap-reset :
    (stream : ℕ) (reason : ForwardResetReason)
    → IsNonZero32 stream
    → Costs (put_reset stream reason) 5
unfolding put_reset stream_field reset_field
cap-reset stream reason h =
    Costs-seq (stream_field-IsLawful.costs stream h) (reset_field-IsLawful.costs reason tt)

abbrev pub max_client_frame : ℕ
max_client_frame = 68 * 1024

cap_one :
    (tag : ℕ) {n : ℕ} (w : Written)
    → n ≤ 66_000
    → Costs w n
    → Costs (put_u8 tag <+> w) max_client_frame
cap_one tag w h p = Costs-more (Costs-seq (Costs-u8 _) p) (omega arith)

-- No message of a client is longer than the daemon reads.
pub cap-client :
    (spoken : ℕ) (m : ClientMessage)
    → IsClientMessage m
    → Costs (put_client spoken m) max_client_frame
unfolding put_client IsClientMessage input_chunk id_field array_field range_field grid_field
    seq_field request_field u64_field u16_field stream_field
cap-client spoken (hello versions size term env command client) h = cap_one _ _ (omega arith) (
    Costs-seq (range_field-IsLawful.costs versions h.0) (
      Costs-seq (grid_field-IsLawful.costs size h.1) (
        Costs-seq (cap-term term) (
          Costs-seq (cap-env env h.3)
            (Costs-seq (cap-command command h.4) (id_field-IsLawful.costs client h.5))))))
cap-client spoken (hello_forward versions client) h =
    cap_one _ _ (omega arith)
      (Costs-seq (range_field-IsLawful.costs versions h.0) (id_field-IsLawful.costs client h.1))
cap-client spoken (resume versions seq request) h = cap_one _ _ (omega arith) (
    Costs-seq (range_field-IsLawful.costs versions h.0)
      (Costs-seq (seq_field-IsLawful.costs seq h.1) (request_field-IsLawful.costs request h.2)))
cap-client spoken (input seq bytes) h =
    cap_one _ _ (omega arith)
      (Costs-seq (seq_field-IsLawful.costs seq h) (cap-chunk max_input_chunk bytes))
cap-client spoken (resize seq size) h =
    cap_one _ _ (omega arith)
      (Costs-seq (seq_field-IsLawful.costs seq h.0) (grid_field-IsLawful.costs size h.1))
cap-client spoken (request_repaint seq) h =
    cap_one _ _ (omega arith) (seq_field-IsLawful.costs seq h)
cap-client spoken (screen_ack generation version) h =
    cap_one _ _ (omega arith)
      (Costs-seq (seq_field-IsLawful.costs generation h.0) (seq_field-IsLawful.costs version h.1))
cap-client spoken (close seq) h = cap_one _ _ (omega arith) (seq_field-IsLawful.costs seq h)
cap-client spoken (detach seq) h = cap_one _ _ (omega arith) (seq_field-IsLawful.costs seq h)
cap-client spoken (pong token off) h =
    cap_one _ _ (omega arith)
      (Costs-seq (u64_field-IsLawful.costs token h.0) (u64_field-IsLawful.costs off h.1))
cap-client spoken (consumed off) h = cap_one _ _ (omega arith) (u64_field-IsLawful.costs off h)
cap-client spoken list_sessions h = Costs-more (Costs-u8 _) (omega arith)
cap-client spoken (kill_session session_id) h =
    cap_one _ _ (omega arith) (id_field-IsLawful.costs session_id h)
cap-client spoken (search_history pattern most) h =
    cap_one _ _ (omega arith) (Costs-seq (cap-pattern pattern) (u16_field-IsLawful.costs most h.1))
cap-client spoken (forward_open seq stream target) h = cap_one _ _ (omega arith) (
    Costs-seq (seq_field-IsLawful.costs seq h.0)
      (Costs-seq (stream_field-IsLawful.costs stream h.1) (cap-target target)))
cap-client spoken (forward_data stream off fin bytes) h =
    cap_one _ _ (omega arith) (cap-data stream off fin bytes h)
cap-client spoken (forward_ack stream off window held) h =
    cap_one _ _ (omega arith) (cap-ack spoken stream off window held h)
cap-client spoken (forward_reset stream reason) h =
    cap_one _ _ (omega arith) (cap-reset stream reason h)
cap-client spoken (rename_session session_id name) h =
    cap_one _ _ (omega arith) (Costs-seq (id_field-IsLawful.costs session_id h.0) (cap-name name))
cap-client spoken list_names h = Costs-more (Costs-u8 _) (omega arith)
