-- ===== src/Proto/Field/Struct.antt =====
-- The fields of crates/proto/src/lib.rs that are a struct or an enum of one size.
pub mod Lawful
use braid.Prelude.{ℕ, ◌+◌, ◌≤◌, Bool, ◌||◌, Option, none, some, [], ltb, ◌==◌, if◌then◌else◌}
use braid.Proto.Outcome.{bad_version, invalid_field}
use braid.Proto.Cursor.{
  Written, Decoder, ◌<+>◌, written, put_u8, put_u16, put_u64, ◌>>=◌, ◌>>◌, pure, fail, or_fail,
  reject_if, array, u8, u16, u64,
}
use braid.Proto.Values.{
  non_zero, GridSize, grid_size, VersionRange, version_range, protocol_version,
  min_protocol_version, local_range, capability_bytes, DatagramOffer, IsDatagramOffer,
  ResumeRequest, InputCue, opaque, echoing, DetachReason, requested, replaced, ForwardResetReason,
  refused, unreachable, closed, limit, internal, RejectReason, version_mismatch, unknown_session,
  sequence_gap, input_backlog, internal_failure, too_many_sessions, too_many_attachments,
}
use braid.Proto.Field.{Field}
use mathlib.Core.Path.{subst}

unfoldable pub grid_field : Field GridSize
grid_field = record {
  hint = λ _. 4;
  put = λ size. put_u16 size.cols <+> put_u16 size.rows;
  get = (do cols ← u16; rows ← u16; or_fail (grid_size cols rows) invalid_field);
}

unfoldable pub range_field : Field VersionRange
range_field = record {
  hint = λ _. 4;
  put = λ range. put_u16 range.oldest <+> put_u16 range.newest;
  get = (do oldest ← u16; newest ← u16; or_fail (version_range oldest newest) invalid_field);
}

-- A version is the number inside, and the range is this build's.
unfoldable pub ver_field : Field ℕ
ver_field = record {
  hint = λ _. 2;
  put = put_u16;
  get = do
    stated ← u16
    reject_if (ltb stated local_range.oldest || ltb local_range.newest stated) (bad_version stated)
    pure stated;
}

unfoldable pub IsSpoken : ℕ → Type 0
IsSpoken v = (min_protocol_version ≤ v) × (v ≤ protocol_version)

abbrev pub offer_bytes : ℕ
offer_bytes = 16 + 2 + 8 + 32

unfoldable pub encode_offer : Option DatagramOffer → Written
encode_offer none = put_u8 0
encode_offer (some offer) =
    put_u8 1
    <+> written offer.ip
    <+> put_u16 offer.port
    <+> written offer.cid
    <+> written offer.secret

offer_body : Decoder (Option DatagramOffer)
offer_body = do
  ip ← array 16
  port ← u16
  cid ← array 8
  secret ← array 32
  pure (some (record { ip = ip; port = port; cid = cid; secret = secret }))

unfoldable pub decode_offer : Decoder (Option DatagramOffer)
unfolding offer_body
decode_offer = do
  tag ← u8
  if tag == 0 then pure none else if tag == 1 then offer_body else fail invalid_field

unfoldable pub IsOffer : Option DatagramOffer → Type 0
IsOffer none = Unit
IsOffer (some offer) = IsDatagramOffer offer

unfoldable pub offer_field : Field (Option DatagramOffer)
offer_field = record { hint = λ _. 1 + offer_bytes; put = encode_offer; get = decode_offer }

unfoldable pub encode_cue : InputCue → Written
encode_cue opaque = put_u8 0
encode_cue (echoing room) = put_u8 1 <+> put_u16 room

cue_room : Decoder InputCue
cue_room = do room ← u16; pure (echoing room)

unfoldable pub decode_cue : Decoder InputCue
unfolding cue_room
decode_cue = do
  tag ← u8
  if tag == 0 then pure opaque else if tag == 1 then cue_room else fail invalid_field

unfoldable pub cue_field : Field InputCue
cue_field = record { hint = λ _. 3; put = encode_cue; get = decode_cue }

unfoldable pub detach_to_wire : DetachReason → ℕ
detach_to_wire requested = 0
detach_to_wire replaced = 1

unfoldable pub detach_from_wire : ℕ → Option DetachReason
detach_from_wire value =
    if value == 0 then some requested else if value == 1 then some replaced else none

unfoldable pub detach_field : Field DetachReason
detach_field = record {
  hint = λ _. 1;
  put = λ reason. put_u8 (detach_to_wire reason);
  get = (do value ← u8; or_fail (detach_from_wire value) invalid_field);
}

unfoldable pub reset_to_wire : ForwardResetReason → ℕ
reset_to_wire refused = 0
reset_to_wire unreachable = 1
reset_to_wire closed = 2
reset_to_wire limit = 3
reset_to_wire internal = 4

unfoldable pub reset_from_wire : ℕ → Option ForwardResetReason
reset_from_wire value =
    if value == 0
    then some refused
    else if value == 1
    then some unreachable
    else if value == 2
    then some closed
    else if value == 3
    then some limit
    else if value == 4
    then some internal
    else none

unfoldable pub reset_field : Field ForwardResetReason
reset_field = record {
  hint = λ _. 1;
  put = λ reason. put_u8 (reset_to_wire reason);
  get = (do value ← u8; or_fail (reset_from_wire value) invalid_field);
}

-- `flags & !FORWARD_FIN != 0` of a byte is `flags > 1`.
unfoldable pub fin_field : Field Bool
fin_field = record {
  hint = λ _. 1;
  put = λ fin. put_u8 (if fin then 1 else 0);
  get = (do flags ← u8; reject_if (ltb 1 flags) invalid_field; pure (flags == 1));
}

unfoldable pub request_field : Field ResumeRequest
request_field = record {
  hint = λ _. 80;
  put = λ request.
      written request.session_id
      <+> written request.capability
      <+> put_u64 request.confirmed_output.generation
      <+> put_u64 request.confirmed_output.next_off
      <+> written request.client;
  get = do
    session_id ← array 16
    capability ← array capability_bytes
    stated ← u64
    generation ← or_fail (non_zero stated) invalid_field
    next_off ← u64
    client ← array 16
    pure (record {
      session_id = session_id;
      capability = capability;
      confirmed_output = record { generation = generation; next_off = next_off };
      client = client;
    });
}

unfoldable pub refusal_to_wire : RejectReason → ℕ
refusal_to_wire (version_mismatch server client) = 0
refusal_to_wire unknown_session = 1
refusal_to_wire sequence_gap = 2
refusal_to_wire input_backlog = 3
refusal_to_wire internal_failure = 4
refusal_to_wire too_many_sessions = 5
refusal_to_wire too_many_attachments = 6

-- For a version refusal_mismatch both ends' refusal_ranges.
unfoldable pub refusal_ranges : RejectReason → Written
refusal_ranges (version_mismatch server client) =
    put_u16 server.oldest
    <+> put_u16 server.newest
    <+> put_u16 client.oldest
    <+> put_u16 client.newest
refusal_ranges r = written []

unfoldable pub refusal_mismatch : Decoder RejectReason
refusal_mismatch = do
  oldest ← u16
  newest ← u16
  server ← or_fail (version_range oldest newest) invalid_field
  oldest ← u16
  newest ← u16
  client ← or_fail (version_range oldest newest) invalid_field
  pure (version_mismatch server client)

unfoldable pub refusal_from_tag : ℕ → Decoder RejectReason
refusal_from_tag tag =
    if tag == 0
    then refusal_mismatch
    else if tag == 1
    then pure unknown_session
    else if tag == 2
    then pure sequence_gap
    else if tag == 3
    then pure input_backlog
    else if tag == 4
    then pure internal_failure
    else if tag == 5
    then pure too_many_sessions
    else if tag == 6
    then pure too_many_attachments
    else fail invalid_field

unfoldable pub refusal_field : Field RejectReason
unfolding refusal_ranges
refusal_field = record {
  hint = λ _. 9;
  put = λ reason. put_u8 (refusal_to_wire reason) <+> refusal_ranges reason;
  get = (do tag ← u8; refusal_from_tag tag);
}
