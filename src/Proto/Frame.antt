-- ===== src/Proto/Frame.antt =====
-- Frames, crates/proto/src/lib.rs: the length in front of a body, `seal_frame` and `read_frame`.
-- A reader is the bytes it will give before it ends; what else can fail in it is not modelled.
pub mod Stream
pub mod Cut
use braid.Prelude.{ℕ, ◌*◌, ◌||◌, ltb, ◌==◌, length, u32_max, Bytes}
use braid.Proto.Outcome.{DecodeError, oversize, too_large, Result, ok, err}
use braid.Proto.Cursor.{
  Written, Decoder, ◌<+>◌, written, refuse_if, put_u32, ◌>>=◌, ◌>>◌, pure, fail, reject_if,
  take_bytes, u32,
}
use braid.Proto.FromClient.{ClientMessage, put_client, get_client}

abbrev pub max_frame : ℕ
max_frame = 1024 * 1024

abbrev pub length_prefix : ℕ
length_prefix = 4

-- `open_frame_into` and `seal_frame` around a body.
unfoldable pub seal : Written → Written
seal (ok body) = refuse_if (ltb u32_max (length body)) too_large (
    refuse_if ((length body == 0) || ltb max_frame (length body)) too_large
      (put_u32 (length body) <+> written body))
seal (err e) = err e

unfoldable pub read_frame : ℕ → Decoder Bytes
read_frame most = do
  length ← u32
  reject_if ((length == 0) || ltb most length) (oversize length most)
  take_bytes length

-- `decode` reads one message and leaves the bytes behind it, which are a later version's.
unfoldable pub message : {A : Type 0} → Result DecodeError (A × Bytes) → Result DecodeError A
message (ok (m, rest)) = ok m
message (err e) = err e

abbrev pub decoded : {A : Type 0} → Result DecodeError A → Decoder A
decoded (ok m) = pure m
decoded (err e) = fail e

-- A frame read and its body decoded, as both ends do with every frame.
unfoldable pub receive : {A : Type 0} → ℕ → Decoder A → Decoder A
receive most get = do body ← read_frame most; decoded (message (get body))

-- `ClientMessage::encode` and `ClientMessage::decode`.
unfoldable pub encode_client : ℕ → ClientMessage → Written
encode_client spoken m = seal (put_client spoken m)

unfoldable pub decode_client : ℕ → Bytes → Result DecodeError ClientMessage
decode_client spoken body = message (get_client spoken body)
