-- ===== src/Proto/Tests.antt =====
-- Messages of crates/proto/src/lib.rs on concrete bytes.
use braid.Prelude.{◌≡◌, refl, ◌≢◌, true, none, some, List, [], ◌∷◌, ◌++◌, map, arith, Bytes, be}
use braid.Proto.Outcome.{ok}
use braid.Proto.Cursor.{◌<+>◌, written, refuse_if, put_u8, put_u32, put_u64}
use braid.Proto.Laws.{Costs}
use braid.Proto.Text.{chars_from, chars, is_control, any, has_control}
use braid.Proto.Field.Str.{chunk_field}
use braid.Proto.Field.Scalar.{u32_field, u64_field, seq_field, stream_field}
use braid.Proto.Field.Vector.{put_each, repeat}
use braid.Proto.Field.Vector.Lawful.{All}
use braid.Proto.Forwarded.{put_since, put_ack}
use braid.Proto.FromClient.{
  ClientMessage, input, consumed, forward_ack, input_chunk, put_client, get_client,
}
use braid.Proto.FromClient.Lawful.{IsClientMessage, client_at}
use braid.Proto.FromClient.Bounds.{max_client_frame}
use braid.Proto.FromClient.Hint.{client_hint, Costs-client}
use braid.Proto.Frame.{seal, receive, encode_client, decode_client}
use braid.Proto.Frame.Stream.{receive-encode}
use braid.Proto.Frame.Cut.{is_fixed, decode-cut}

-- U+1F600, and a surrogate, which is no character.
four_bytes : chars (0xf0 ∷ 0x9f ∷ 0x98 ∷ 0x80 ∷ 0x41 ∷ []) ≡ some (0x1f600 ∷ 0x41 ∷ [])
unfolding chars chars_from
four_bytes = refl

surrogate : chars (0xed ∷ 0xa0 ∷ 0x80 ∷ []) ≡ none
unfolding chars chars_from
surrogate = refl

next_line : has_control (0xc2 ∷ 0x85 ∷ []) ≡ true
unfolding has_control chars chars_from any is_control
next_line = refl

abbrev two_messages : List ClientMessage
two_messages = input 1 (104 ∷ 105 ∷ []) ∷ forward_ack 3 7 9 (record { gap = 1; len = 2 } ∷ []) ∷ []

abbrev two_frames : Bytes
two_frames =
    0 ∷ 0 ∷ 0 ∷ 15 ∷ 4 ∷ 0 ∷ 0 ∷ 0 ∷ 0 ∷ 0 ∷ 0 ∷ 0 ∷ 1 ∷ 0 ∷ 0 ∷ 0 ∷ 2 ∷ 104 ∷ 105 ∷ 0 ∷ 0 ∷ 0 ∷ 17
    ∷ 17 ∷ 0 ∷ 0 ∷ 0 ∷ 3 ∷ 0 ∷ 0 ∷ 0 ∷ 0 ∷ 0 ∷ 0 ∷ 0 ∷ 7 ∷ 0 ∷ 0 ∷ 0 ∷ 9 ∷ []

two_IsClientMessage : All IsClientMessage two_messages
unfolding IsClientMessage
two_IsClientMessage = omega arith

-- Spoken at 13, which has no runs.
two_encoded : put_each (encode_client 13) two_messages ≡ ok two_frames
unfolding put_each encode_client put_client seal refuse_if ◌<+>◌ written put_u8 put_u32 put_u64
    seq_field input_chunk chunk_field put_ack put_since stream_field u64_field u32_field be
two_encoded = refl

receive-encode_example :
    repeat 2 (receive max_client_frame (get_client 13)) (two_frames ++ (99 ∷ []))
    ≡ ok (map (client_at 13) two_messages, 99 ∷ [])
receive-encode_example =
    receive-encode 13 two_messages two_frames two_IsClientMessage two_encoded (99 ∷ [])

consumed_encoded :
    put_client 17 (consumed 258) ≡ ok ((11 ∷ 0 ∷ 0 ∷ []) ++ (0 ∷ 0 ∷ 0 ∷ 0 ∷ 1 ∷ 2 ∷ []))
unfolding put_client ◌<+>◌ written put_u8 put_u64 u64_field be
consumed_encoded = refl

consumed_IsClientMessage : IsClientMessage (consumed 258)
unfolding IsClientMessage
consumed_IsClientMessage = omega arith

consumed_is_fixed : is_fixed (consumed 258) ≡ true
unfolding is_fixed
consumed_is_fixed = refl

decode-cut_example : decode_client 17 (11 ∷ 0 ∷ 0 ∷ []) ≢ ok (consumed 0)
decode-cut_example =
    decode-cut 17 (consumed 258) (consumed 0) (11 ∷ 0 ∷ 0 ∷ []) (0 ∷ 0 ∷ 0 ∷ 0 ∷ 1 ∷ 2 ∷ [])
      consumed_IsClientMessage consumed_is_fixed consumed_encoded (λ e. cc)

Costs-client_example : Costs (put_client 17 (consumed 258)) (client_hint (consumed 258))
Costs-client_example = Costs-client 17 (consumed 258) consumed_IsClientMessage
