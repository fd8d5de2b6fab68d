-- ===== src/Proto/Field/Struct/Lawful.antt =====
-- The codecs of the structs and enums of one size keep the laws of a field.
use braid.Prelude.{
  ℕ, ◌+◌, ◌≤◌, ◌≡◌, refl, Bool, true, false, Option, none, some, [], arith, ltb, ◌==◌,
  if◌then◌else◌, Bytes,
}
use braid.Proto.Outcome.{invalid_field}
use braid.Proto.Cursor.{◌<+>◌, written, put_u8, ◌>>=◌, ◌>>◌, pure, reject_if, u8}
use braid.Proto.Laws.{
  Trips, Extends, Costs, Trips-seq, Trips-last, Trips-end, Trips-before, Extends-seq, Trips-nothing,
  Trips-or_fail, Trips-reject_if, Extends-pure, Extends-fail, Extends-or_fail, Extends-if,
  Extends-reject_if, Costs-seq, Costs-written, Costs-more,
}
use braid.Proto.Laws.Words.{
  Trips-u8, Trips-array, Trips-u16, Trips-u64, Extends-u8, Extends-array, Extends-u16, Extends-u64,
  Costs-u8, Costs-u16, Costs-u64,
}
use braid.Proto.Values.{
  IsArray, non_zero, GridSize, grid_size, IsGridSize, VersionRange, version_range, IsVersionRange,
  capability_bytes, DatagramOffer, IsResumeRequest, InputCue, opaque, echoing, IsInputCue,
  DetachReason, requested, replaced, ForwardResetReason, refused, unreachable, closed, limit,
  internal, RejectReason, version_mismatch, unknown_session, sequence_gap, input_backlog,
  internal_failure, too_many_sessions, too_many_attachments, IsRejectReason,
}
use braid.Proto.Field.{IsLawful, Anything}
use braid.Proto.Field.Struct.{
  grid_field, range_field, ver_field, IsSpoken, offer_bytes, encode_offer, decode_offer, IsOffer,
  offer_field, encode_cue, decode_cue, cue_field, detach_to_wire, detach_from_wire, detach_field,
  reset_to_wire, reset_from_wire, reset_field, fin_field, request_field, refusal_to_wire,
  refusal_ranges, refusal_mismatch, refusal_from_tag, refusal_field,
}

pub grid_size-some : (g : GridSize) → IsGridSize g → grid_size g.cols g.rows ≡ some g
unfolding grid_size
grid_size-some g h = ground arith

pub grid_field-IsLawful : IsLawful grid_field IsGridSize
unfolding grid_field
grid_field-IsLawful = record {
  trips = λ g h.
      Trips-seq _ (Trips-u16 g.cols (omega arith))
        (Trips-end _ (Trips-u16 g.rows (omega arith)) (Trips-or_fail _ (grid_size-some g h)));
  extends = Extends-seq Extends-u16 (λ cols. Extends-seq Extends-u16 (λ rows. Extends-or_fail _ _));
  costs = λ g h. Costs-seq (Costs-u16 g.cols) (Costs-u16 g.rows);
}

version_range-some :
    (r : VersionRange) → IsVersionRange r → version_range r.oldest r.newest ≡ some r
unfolding version_range
version_range-some r h = ground arith

pub range_field-IsLawful : IsLawful range_field IsVersionRange
unfolding range_field
range_field-IsLawful = record {
  trips = λ r h.
      Trips-seq _ (Trips-u16 r.oldest (omega arith))
        (Trips-end _ (Trips-u16 r.newest h.2) (Trips-or_fail _ (version_range-some r h)));
  extends =
      Extends-seq Extends-u16 (λ oldest. Extends-seq Extends-u16 (λ newest. Extends-or_fail _ _));
  costs = λ r h. Costs-seq (Costs-u16 r.oldest) (Costs-u16 r.newest);
}

pub ver_field-IsLawful : IsLawful ver_field IsSpoken
unfolding ver_field IsSpoken
ver_field-IsLawful = record {
  trips = λ v h.
      Trips-end _ (Trips-u16 v (omega arith)) (Trips-reject_if _ (ground arith) Trips-nothing);
  extends = Extends-seq Extends-u16 (λ v. Extends-reject_if _ _ (Extends-pure v));
  costs = λ v h. Costs-u16 v;
}

Trips-offer : (o : Option DatagramOffer) → IsOffer o → Trips (encode_offer o) decode_offer o
unfolding encode_offer decode_offer IsOffer
Trips-offer none h = Trips-end _ (Trips-u8 0) Trips-nothing
Trips-offer (some o) h = Trips-seq _ (Trips-u8 1) (
    Trips-seq _ (Trips-array o.ip 16 h.0) (
      Trips-seq _ (Trips-u16 o.port h.1)
        (Trips-seq _ (Trips-array o.cid 8 h.2) (Trips-last _ (Trips-array o.secret 32 h.3)))))

pub Costs-array : (n : ℕ) (bytes : Bytes) → IsArray n bytes → Costs (written bytes) n
Costs-array n bytes h = Costs-written bytes (omega (arith, h))

Costs-offer : (o : Option DatagramOffer) → IsOffer o → Costs (encode_offer o) (1 + offer_bytes)
unfolding encode_offer IsOffer
Costs-offer none h = Costs-more (Costs-u8 0) (omega arith)
Costs-offer (some o) h = Costs-seq (Costs-u8 1) (
    Costs-seq (Costs-array 16 o.ip h.0) (
      Costs-seq (Costs-u16 o.port)
        (Costs-seq (Costs-array 8 o.cid h.2) (Costs-array 32 o.secret h.3))))

pub offer_field-IsLawful : IsLawful offer_field IsOffer
unfolding offer_field decode_offer
offer_field-IsLawful = record {
  trips = Trips-offer;
  extends = Extends-seq Extends-u8 (λ tag. Extends-if _ (Extends-pure _) (
      Extends-if _
        (Extends-seq (Extends-array 16) (λ ip. Extends-seq Extends-u16 (λ port.
          Extends-seq (Extends-array 8)
            (λ cid. Extends-seq (Extends-array 32) (λ secret. Extends-pure _)))))
        (Extends-fail _)));
  costs = Costs-offer;
}

Trips-cue : (cue : InputCue) → IsInputCue cue → Trips (encode_cue cue) decode_cue cue
unfolding encode_cue decode_cue IsInputCue
Trips-cue opaque h = Trips-end _ (Trips-u8 0) Trips-nothing
Trips-cue (echoing room) h = Trips-seq _ (Trips-u8 1) (Trips-last echoing (Trips-u16 room h))

Costs-cue : (cue : InputCue) → IsInputCue cue → Costs (encode_cue cue) 3
unfolding encode_cue
Costs-cue opaque h = Costs-more (Costs-u8 0) (omega arith)
Costs-cue (echoing room) h = Costs-seq (Costs-u8 1) (Costs-u16 room)

pub cue_field-IsLawful : IsLawful cue_field IsInputCue
unfolding cue_field decode_cue
cue_field-IsLawful = record {
  trips = Trips-cue;
  extends = Extends-seq Extends-u8 (λ tag.
      Extends-if _ (Extends-pure _)
        (Extends-if _ (Extends-seq Extends-u16 (λ room. Extends-pure _)) (Extends-fail _)));
  costs = Costs-cue;
}

from_to_wire-detach : (r : DetachReason) → detach_from_wire (detach_to_wire r) ≡ some r
unfolding detach_from_wire detach_to_wire
from_to_wire-detach requested = refl
from_to_wire-detach replaced = refl

pub detach_field-IsLawful : IsLawful detach_field Anything
unfolding detach_field
detach_field-IsLawful = record {
  trips = λ r h. Trips-end _ (Trips-u8 _) (Trips-or_fail _ (from_to_wire-detach r));
  extends = Extends-seq Extends-u8 (λ value. Extends-or_fail _ _);
  costs = λ r h. Costs-u8 _;
}

from_to_wire-reset : (r : ForwardResetReason) → reset_from_wire (reset_to_wire r) ≡ some r
unfolding reset_from_wire reset_to_wire
from_to_wire-reset refused = refl
from_to_wire-reset unreachable = refl
from_to_wire-reset closed = refl
from_to_wire-reset limit = refl
from_to_wire-reset internal = refl

pub reset_field-IsLawful : IsLawful reset_field Anything
unfolding reset_field
reset_field-IsLawful = record {
  trips = λ r h. Trips-end _ (Trips-u8 _) (Trips-or_fail _ (from_to_wire-reset r));
  extends = Extends-seq Extends-u8 (λ value. Extends-or_fail _ _);
  costs = λ r h. Costs-u8 _;
}

Trips-fin :
    (fin : Bool)
    → Trips
        (put_u8 (if fin then 1 else 0))
        (u8 >>= λ flags. reject_if (ltb 1 flags) invalid_field >> pure (flags == 1))
        fin
Trips-fin true = Trips-end _ (Trips-u8 1) (Trips-reject_if _ refl Trips-nothing)
Trips-fin false = Trips-end _ (Trips-u8 0) (Trips-reject_if _ refl Trips-nothing)

pub fin_field-IsLawful : IsLawful fin_field Anything
unfolding fin_field
fin_field-IsLawful = record {
  trips = λ fin h. Trips-fin fin;
  extends = Extends-seq Extends-u8 (λ flags. Extends-reject_if _ _ (Extends-pure _));
  costs = λ fin h. Costs-u8 _;
}

pub non_zero-some : (x : ℕ) → 1 ≤ x → non_zero x ≡ some x
unfolding non_zero
non_zero-some x h = ground arith

pub request_field-IsLawful : IsLawful request_field IsResumeRequest
unfolding request_field
request_field-IsLawful = record {
  trips = λ r h. Trips-seq _ (Trips-array r.session_id 16 h.0) (
      Trips-seq _ (Trips-array r.capability capability_bytes h.1) (
        Trips-seq _ (Trips-u64 _ (h.2).1) (
          Trips-before _ (Trips-or_fail _ (non_zero-some _ (h.2).0))
            (Trips-seq _ (Trips-u64 _ h.3) (Trips-last _ (Trips-array r.client 16 h.4))))));
  extends = Extends-seq (Extends-array 16) (λ id.
      Extends-seq (Extends-array capability_bytes) (λ capability. Extends-seq Extends-u64 (λ stated.
        Extends-seq (Extends-or_fail _ _) (λ generation.
          Extends-seq Extends-u64
            (λ off. Extends-seq (Extends-array 16) (λ client. Extends-pure _))))));
  costs = λ r h. Costs-seq (Costs-array 16 r.session_id h.0) (
      Costs-seq (Costs-array 32 r.capability h.1)
        (Costs-seq (Costs-u64 _) (Costs-seq (Costs-u64 _) (Costs-array 16 r.client h.4))));
}

Trips-mismatch :
    (server client : VersionRange)
    → IsVersionRange server
    → IsVersionRange client
    → Trips
        (refusal_ranges (version_mismatch server client))
        refusal_mismatch
        (version_mismatch server client)
unfolding refusal_ranges refusal_mismatch
Trips-mismatch server client h k = Trips-seq _ (Trips-u16 server.oldest (omega arith)) (
    Trips-seq _ (Trips-u16 server.newest h.2) (
      Trips-before _ (Trips-or_fail _ (version_range-some server h)) (
        Trips-seq _ (Trips-u16 client.oldest (omega arith)) (
          Trips-end _ (Trips-u16 client.newest k.2)
            (Trips-before _ (Trips-or_fail _ (version_range-some client k)) Trips-nothing)))))

Trips-refusal :
    (r : RejectReason)
    → IsRejectReason r
    → Trips (put_u8 (refusal_to_wire r) <+> refusal_ranges r) (u8 >>= λ tag. refusal_from_tag tag) r
unfolding refusal_to_wire refusal_ranges refusal_from_tag IsRejectReason
Trips-refusal (version_mismatch server client) h =
    Trips-seq _ (Trips-u8 0) (Trips-mismatch server client h.0 h.1)
Trips-refusal unknown_session h = Trips-seq _ (Trips-u8 1) Trips-nothing
Trips-refusal sequence_gap h = Trips-seq _ (Trips-u8 2) Trips-nothing
Trips-refusal input_backlog h = Trips-seq _ (Trips-u8 3) Trips-nothing
Trips-refusal internal_failure h = Trips-seq _ (Trips-u8 4) Trips-nothing
Trips-refusal too_many_sessions h = Trips-seq _ (Trips-u8 5) Trips-nothing
Trips-refusal too_many_attachments h = Trips-seq _ (Trips-u8 6) Trips-nothing

Costs-ranges : (r : RejectReason) → Costs (refusal_ranges r) 8
unfolding refusal_ranges
Costs-ranges (version_mismatch server client) =
    Costs-seq (Costs-u16 _) (Costs-seq (Costs-u16 _) (Costs-seq (Costs-u16 _) (Costs-u16 _)))
Costs-ranges unknown_session = Costs-written [] (omega arith)
Costs-ranges sequence_gap = Costs-written [] (omega arith)
Costs-ranges input_backlog = Costs-written [] (omega arith)
Costs-ranges internal_failure = Costs-written [] (omega arith)
Costs-ranges too_many_sessions = Costs-written [] (omega arith)
Costs-ranges too_many_attachments = Costs-written [] (omega arith)

Extends-refusal_mismatch : Extends refusal_mismatch
unfolding refusal_mismatch
Extends-refusal_mismatch = Extends-seq Extends-u16 (λ o. Extends-seq Extends-u16 (λ n.
    Extends-seq (Extends-or_fail _ _) (λ server. Extends-seq Extends-u16 (λ o.
      Extends-seq Extends-u16
        (λ n. Extends-seq (Extends-or_fail _ _) (λ client. Extends-pure _))))))

Extends-refusal_from_tag : (tag : ℕ) → Extends (refusal_from_tag tag)
unfolding refusal_from_tag
Extends-refusal_from_tag tag =
    search (Extends-if, Extends-pure, Extends-fail, Extends-refusal_mismatch) depth 12

pub refusal_field-IsLawful : IsLawful refusal_field IsRejectReason
unfolding refusal_field
refusal_field-IsLawful = record {
  trips = Trips-refusal;
  extends = Extends-seq Extends-u8 (λ tag. Extends-refusal_from_tag tag);
  costs = λ r h. Costs-seq (Costs-u8 _) (Costs-ranges r);
}
