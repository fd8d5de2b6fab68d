-- ===== src/Dgram/Packet/RoundTrip.antt =====
-- Headers and acknowledgements survive the wire.
use braid.Prelude.{
  ℕ, zero, suc, ◌/◌, ◌^◌, ◌≤◌, ◌<◌, min, ◌≡◌, refl, sym, ap, ◌∙◌, inl, inr, some, [], ◌∷◌, ◌++◌,
  map, append_assoc, arith, ltb, ltb→lt, Bool-cases, length, drop, length-append, u32_max, micros,
  from_micros, Bytes, be, from_be, from_be-be,
}
use braid.Prelude.Slices.{take-append}
use braid.Dgram.Packet.{
  tag_bytes, max_packet_number, Kind, frame, challenge, response, alive, close, ack, probe, to_wire,
  from_wire, Ack, six_bytes, from_six, wire_micros, encode_ack, decode_ack, Header, decoded,
  encode_header, byte_at, decode_header,
}

two_zeros : (a b : ℕ) (bytes : Bytes) → a ≡ 0 → b ≡ 0 → 0 ∷ 0 ∷ bytes ≡ a ∷ b ∷ bytes
two_zeros a b bytes h k = cc

six_bytes-be : (x : ℕ) → x ≤ max_packet_number → 0 ∷ 0 ∷ six_bytes x ≡ be 8 x
unfolding six_bytes be
six_bytes-be x h = two_zeros _ _ _ (omega arith) (omega arith)

from_six_bytes : (x : ℕ) → x ≤ max_packet_number → from_six (six_bytes x) ≡ x
unfolding from_six
from_six_bytes x h = ap from_be (six_bytes-be x h) ∙ from_be-be 8 x (omega arith)

length-six_bytes : (x : ℕ) → length (six_bytes x) ≡ 6
unfolding six_bytes be
length-six_bytes x = refl

encoded_ack :
    (a : Ack) (body : Bytes)
    → encode_ack a ≡ some body
    → (a.largest ≤ max_packet_number)
      × (six_bytes a.largest ++ be 4 (wire_micros a.delay) ++ be 8 a.map ≡ body)
unfolding encode_ack
encoded_ack a body h = ground arith

decode_ack-parts :
    (largest micros map : ℕ)
    → decode_ack (six_bytes largest ++ be 4 micros ++ be 8 map)
      ≡ some (record {
        largest = from_six (six_bytes largest);
        delay = from_micros (from_be (be 4 micros));
        map = from_be (be 8 map);
      })
unfolding decode_ack six_bytes be
decode_ack-parts largest micros map = refl

-- An acknowledgement survives the wire, its delay in whole microseconds and no more of them than
-- four bytes hold: for a bitmap of 64 bits, where the encoder does not panic.
pub decode-encode_ack :
    (a : Ack) (body : Bytes)
    → a.map < 2 ^ 64
    → encode_ack a ≡ some body
    → decode_ack body
      ≡ some (record {
        largest = a.largest;
        delay = from_micros (min (a.delay / 1_000) u32_max);
        map = a.map;
      })
unfolding wire_micros
decode-encode_ack a body small h =
    let (fits, e) = encoded_ack a body h in
    ap decode_ack (sym e)
    ∙ decode_ack-parts a.largest (min (a.delay / 1_000) u32_max) a.map
    ∙ rw (
      from_six_bytes a.largest fits,
      from_be-be 4 (min (a.delay / 1_000) u32_max) (omega arith),
      from_be-be 8 a.map small,
    )

encoded_header :
    (h : Header) (bytes : Bytes)
    → encode_header h ≡ some bytes
    → (h.number ≤ max_packet_number)
      × ((to_wire h.kind ∷ []) ++ h.cid ++ (h.epoch ∷ []) ++ six_bytes h.number ≡ bytes)
unfolding encode_header
encoded_header h bytes e = ground arith

byte_at-past :
    (n : ℕ) (s : Bytes) (b : ℕ) (bytes : Bytes) → length s ≡ n → byte_at n (s ++ (b ∷ bytes)) ≡ b
unfolding byte_at
byte_at-past zero [] b bytes h = refl
byte_at-past zero (x ∷ s) b bytes h = absurd (omega arith)
byte_at-past (suc n) [] b bytes h = absurd (omega arith)
byte_at-past (suc n) (x ∷ s) b bytes h = byte_at-past n s b bytes (omega arith)

drop_past :
    (n : ℕ) (s : Bytes) (b : ℕ) (bytes : Bytes)
    → length s ≡ n
    → drop (suc n) (s ++ (b ∷ bytes)) ≡ bytes
drop_past zero [] b bytes h = refl
drop_past zero (x ∷ s) b bytes h = absurd (omega arith)
drop_past (suc n) [] b bytes h = absurd (omega arith)
drop_past (suc n) (x ∷ s) b bytes h = drop_past n s b bytes (omega arith)

from_to_wire : (k : Kind) → from_wire (to_wire k) ≡ some k
unfolding from_wire to_wire
from_to_wire frame = refl
from_to_wire challenge = refl
from_to_wire response = refl
from_to_wire alive = refl
from_to_wire close = refl
from_to_wire ack = refl
from_to_wire probe = refl

layout :
    (k e : ℕ) (cid six rest : Bytes)
    → ((k ∷ []) ++ cid ++ (e ∷ []) ++ six) ++ rest ≡ k ∷ (cid ++ (e ∷ (six ++ rest)))
layout k e cid six rest =
    ap (◌∷◌ k) (append_assoc (cid ++ (e ∷ [])) six rest ∙ append_assoc cid (e ∷ []) (six ++ rest))

decode_header-layout :
    (k : Kind) (e number : ℕ) (cid rest : Bytes)
    → length cid ≡ 8
    → number ≤ max_packet_number
    → tag_bytes ≤ length rest
    → decode_header (to_wire k ∷ (cid ++ (e ∷ (six_bytes number ++ rest))))
      ≡ decoded (record { kind = k; cid = cid; epoch = e; number = number })
unfolding decode_header byte_at
decode_header-layout k e number cid rest eight fits more =
    elim (Bool-cases (ltb (length (to_wire k ∷ (cid ++ (e ∷ (six_bytes number ++ rest))))) 32)) [
      | inl cut ↦ absurd (
          omega (
            arith,
            ltb→lt (length (to_wire k ∷ (cid ++ (e ∷ (six_bytes number ++ rest))))) 32 cut,
            length-append cid (e ∷ (six_bytes number ++ rest)),
            length-append (six_bytes number) rest,
            length-six_bytes number,
          ))
      | inr whole ↦ rw whole (
          rw (
            from_to_wire k,
            take-append 8 cid (e ∷ (six_bytes number ++ rest)) eight,
            byte_at-past 8 cid e (six_bytes number ++ rest) eight,
            drop_past 8 cid e (six_bytes number ++ rest) eight,
            take-append 6 (six_bytes number) rest (length-six_bytes number),
            from_six_bytes number fits,
          ))
    ]

-- A header survives the wire, whatever the sixteen or more bytes behind it: for a connection id of
-- eight bytes, where the encoder does not panic.
pub decode-encode_header :
    (h : Header) (bytes rest : Bytes)
    → length h.cid ≡ 8
    → encode_header h ≡ some bytes
    → tag_bytes ≤ length rest
    → decode_header (bytes ++ rest) ≡ decoded h
decode-encode_header h bytes rest eight e more =
    let (fits, shape) = encoded_header h bytes e in
    ap (λ b. decode_header (b ++ rest)) (sym shape)
    ∙ ap decode_header (layout (to_wire h.kind) h.epoch h.cid (six_bytes h.number) rest)
    ∙ decode_header-layout h.kind h.epoch h.number h.cid rest eight fits more
