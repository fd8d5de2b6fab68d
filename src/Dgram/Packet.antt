-- ===== src/Dgram/Packet.antt =====
-- crates/dgram/src/packet.rs: the sizes of a datagram, the header that it carries in the clear and
-- the acknowledgement. `Epoch` is the number of crates/dgram/src/keys.rs.
pub mod RoundTrip
pub mod Tests
use braid.Prelude.{
  ℕ, zero, suc, ◌+◌, ◌-◌, ◌/◌, ◌^◌, min, Bool, true, false, Option, none, some, [], ◌∷◌, ◌++◌, ltb,
  leb, ◌==◌, if◌then◌else◌, length, take, drop, u32_max, from_micros, Bytes, be, from_be,
}

abbrev pub base_datagram : ℕ
base_datagram = 1200

abbrev pub max_datagram : ℕ
max_datagram = 9000

abbrev pub header_bytes : ℕ
header_bytes = 1 + 8 + 1 + 6

abbrev pub tag_bytes : ℕ
tag_bytes = 16

abbrev pub max_packet_number : ℕ
max_packet_number = 2 ^ 48 - 1

pub data Kind : Type 0 where
  frame challenge response alive close ack probe : Kind

-- The discriminants.
unfoldable pub to_wire : Kind → ℕ
to_wire frame = 0
to_wire challenge = 1
to_wire response = 2
to_wire alive = 3
to_wire close = 4
to_wire ack = 5
to_wire probe = 6

unfoldable pub from_wire : ℕ → Option Kind
from_wire byte =
    if byte == 0
    then some frame
    else if byte == 1
    then some challenge
    else if byte == 2
    then some response
    else if byte == 3
    then some alive
    else if byte == 4
    then some close
    else if byte == 5
    then some ack
    else if byte == 6
    then some probe
    else none

unfoldable pub ack_eliciting : Kind → Bool
ack_eliciting frame = true
ack_eliciting challenge = true
ack_eliciting response = true
ack_eliciting probe = true
ack_eliciting alive = false
ack_eliciting close = false
ack_eliciting ack = false

abbrev pub ack_body_bytes : ℕ
ack_body_bytes = 6 + 4 + 8

-- Bit `i` of `map` names the packet `largest - 1 - i`.
pub record Ack : Type 0 where
  pub largest : ℕ
  pub delay : ℕ
  pub map : ℕ

-- `&number.to_be_bytes()[2..]`, and back.
unfoldable pub six_bytes : ℕ → Bytes
six_bytes number = drop 2 (be 8 number)

unfoldable pub from_six : Bytes → ℕ
from_six bytes = from_be (0 ∷ 0 ∷ bytes)

-- `u32::try_from(delay.as_micros()).unwrap_or(u32::MAX)`.
unfoldable pub wire_micros : ℕ → ℕ
wire_micros delay = min (delay / 1_000) u32_max

-- No bytes where the source panics: the packet number is past what six bytes hold.
unfoldable pub encode_ack : Ack → Option Bytes
encode_ack a =
    if leb a.largest max_packet_number
    then some (six_bytes a.largest ++ be 4 (wire_micros a.delay) ++ be 8 a.map)
    else none

unfoldable pub decode_ack : Bytes → Option Ack
decode_ack body =
    if length body == ack_body_bytes
    then some (record {
      largest = from_six (take 6 body);
      delay = from_micros (from_be (take 4 (drop 6 body)));
      map = from_be (drop 10 body);
    })
    else none

pub record Header : Type 0 where
  pub kind : Kind
  pub cid : Bytes
  pub epoch : ℕ
  pub number : ℕ

pub data MalformedPacket : Type 0 where
  short : MalformedPacket
  unknown_kind : ℕ → MalformedPacket

pub data Decoded {ℓ} (A : Type ℓ) : Type ℓ where
  decoded : A → Decoded A
  malformed : MalformedPacket → Decoded A

unfoldable pub encode_header : Header → Option Bytes
encode_header h =
    if leb h.number max_packet_number
    then some ((to_wire h.kind ∷ []) ++ h.cid ++ (h.epoch ∷ []) ++ six_bytes h.number)
    else none

-- An index that has been proved to be in range.
unfoldable pub byte_at : ℕ → Bytes → ℕ
byte_at i [] = 0
byte_at zero (b ∷ bs) = b
byte_at (suc i) (b ∷ bs) = byte_at i bs

abbrev pub or_unknown : Option Kind → Bytes → Decoded Header
or_unknown none datagram = malformed (unknown_kind (byte_at 0 datagram))
or_unknown (some kind) datagram = decoded (record {
  kind = kind;
  cid = take 8 (drop 1 datagram);
  epoch = byte_at 9 datagram;
  number = from_six (take 6 (drop 10 datagram));
})

unfoldable pub decode_header : Bytes → Decoded Header
decode_header datagram =
    if ltb (length datagram) (header_bytes + tag_bytes)
    then malformed short
    else or_unknown (from_wire (byte_at 0 datagram)) datagram

abbrev pub peeked : Decoded Header → Decoded Bytes
peeked (decoded h) = decoded h.cid
peeked (malformed e) = malformed e

unfoldable pub peek : Bytes → Decoded Bytes
peek datagram = peeked (decode_header datagram)
