-- ===== src/Dgram/Packet/Tests.antt =====
-- Headers and acknowledgements of crates/dgram/src/packet.rs on concrete bytes.
use braid.Prelude.{
  ◌/◌, ◌≤◌, min, ◌≡◌, refl, some, [], ◌∷◌, ◌++◌, arith, length, u32_max, from_micros, Bytes, be,
  length-be,
}
use braid.Dgram.Packet.{
  tag_bytes, probe, to_wire, from_wire, Ack, six_bytes, wire_micros, encode_ack, decode_ack, Header,
  unknown_kind, decoded, malformed, encode_header, byte_at, decode_header,
}
use braid.Dgram.Packet.RoundTrip.{decode-encode_ack, decode-encode_header}

abbrev sample_header : Header
sample_header = record {
  kind = probe;
  cid = 1 ∷ 2 ∷ 3 ∷ 4 ∷ 5 ∷ 6 ∷ 7 ∷ 8 ∷ [];
  epoch = 9;
  number = 258;
}

abbrev sample_bytes : Bytes
sample_bytes = 6 ∷ 1 ∷ 2 ∷ 3 ∷ 4 ∷ 5 ∷ 6 ∷ 7 ∷ 8 ∷ 9 ∷ 0 ∷ 0 ∷ 0 ∷ 0 ∷ 1 ∷ 2 ∷ []

abbrev sample_tag : Bytes
sample_tag = be 16 77

sample_encoded : encode_header sample_header ≡ some sample_bytes
unfolding encode_header to_wire six_bytes be
sample_encoded = refl

unknown_refused : decode_header (9 ∷ be 31 0) ≡ malformed (unknown_kind 9)
unfolding decode_header from_wire byte_at be
unknown_refused = refl

decode-encode_header_example : decode_header (sample_bytes ++ sample_tag) ≡ decoded sample_header
decode-encode_header_example =
    decode-encode_header sample_header sample_bytes sample_tag refl sample_encoded sample_tag_long
  where
    sample_tag_long : tag_bytes ≤ length sample_tag
    sample_tag_long = omega (arith, length-be 16 77)

abbrev late_ack : Ack
late_ack = record { largest = 300; delay = 9_000_000_000_000; map = 5 }

abbrev late_body : Bytes
late_body = 0 ∷ 0 ∷ 0 ∷ 0 ∷ 1 ∷ 44 ∷ 255 ∷ 255 ∷ 255 ∷ 255 ∷ 0 ∷ 0 ∷ 0 ∷ 0 ∷ 0 ∷ 0 ∷ 0 ∷ 5 ∷ []

late_encoded : encode_ack late_ack ≡ some late_body
unfolding encode_ack six_bytes wire_micros be
late_encoded = refl

-- Two hours and a half come back as the longest delay that four bytes hold.
decode-encode_ack_example :
    decode_ack late_body
    ≡ some (record {
      largest = 300;
      delay = from_micros (min (9_000_000_000_000 / 1_000) u32_max);
      map = 5;
    })
decode-encode_ack_example = decode-encode_ack late_ack late_body (omega arith) late_encoded
