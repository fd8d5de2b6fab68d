-- ===== src/Proto/Frame/Stream.antt =====
-- A sealed frame is read back whole, and a stream of them one after another.
use braid.Prelude.{
  ℕ, ◌≤◌, ◌≡◌, refl, sym, ap, ◌∙◌, false, ◌||◌, List, [], ◌∷◌, ◌++◌, map, append-nil, arith, ltb,
  ◌==◌, length, Bytes,
}
use braid.Proto.Outcome.{DecodeError, Result, ok, err}
use braid.Proto.Cursor.{Written, Decoder, ◌<+>◌, written, put_u32}
use braid.Proto.Laws.{
  Trips, Costs, Trips-seq, Trips-last, Trips-end, Trips-nothing, Trips-reject_if, Trips-refuse_if,
}
use braid.Proto.Laws.Words.{Trips-take_bytes, Trips-u32}
use braid.Proto.Field.Vector.{put_each, repeat}
use braid.Proto.Field.Vector.Lawful.{All}
use braid.Proto.FromClient.{ClientMessage, put_client, get_client}
use braid.Proto.FromClient.Lawful.{IsClientMessage, client_at, Trips-client}
use braid.Proto.FromClient.Bounds.{max_client_frame, cap-client}
use braid.Proto.Frame.{max_frame, seal, read_frame, message, decoded, receive, encode_client}

Trips-body :
    (body : Bytes) (most : ℕ)
    → length body ≤ most
    → ((length body == 0) || ltb max_frame (length body)) ≡ false
    → Trips (put_u32 (length body) <+> written body) (read_frame most) body
unfolding read_frame
Trips-body body most small sealed =
    Trips-seq _ (Trips-u32 (length body) (ground arith))
      (Trips-reject_if _ (ground arith) (Trips-take_bytes body (length body) refl))

module _ {A : Type 0} where
  pub decode-Trips :
      {w : Written} {get : Decoder A} {v : A} (body : Bytes)
      → Trips w get v
      → w ≡ ok body
      → message (get body) ≡ ok v
  unfolding message
  decode-Trips {get} {v} body t h =
      ap (λ b. message (get b)) (sym (append-nil body)) ∙ ap message (t.trip body h [])

  Trips-decoded : {r : Result DecodeError A} {v : A} → r ≡ ok v → Trips (written []) (decoded r) v
  Trips-decoded h = rw h Trips-nothing

  -- A frame of a message that is within the reader's limit.
  pub Trips-frame :
      (w : Written) (most : ℕ) (get : Decoder A) (v : A)
      → Trips w get v
      → Costs w most
      → Trips (seal w) (receive most get) v
  unfolding seal receive
  Trips-frame (err e) most get v t c = record { trip = λ e h rest. cc }
  Trips-frame (ok body) most get v t c = Trips-refuse_if _ _ (λ narrow.
      Trips-refuse_if _ _ (λ sealed.
        Trips-end _ (Trips-body body most (c.cost body refl) sealed)
          (Trips-decoded (decode-Trips body t refl))))

Trips-stream :
    (spoken : ℕ) (ms : List ClientMessage)
    → All IsClientMessage ms
    → Trips
        (put_each (encode_client spoken) ms)
        (repeat (length ms) (receive max_client_frame (get_client spoken)))
        (map (client_at spoken) ms)
unfolding put_each repeat encode_client
Trips-stream spoken [] h = Trips-nothing
Trips-stream spoken (m ∷ ms) h =
    Trips-seq _
      (Trips-frame (put_client spoken m) max_client_frame (get_client spoken) (client_at spoken m)
        (Trips-client spoken m h.0) (cap-client spoken m h.0))
      (Trips-last (◌∷◌ (client_at spoken m)) (Trips-stream spoken ms h.1))

-- A daemon that reads frames of at most `MAX_CLIENT_FRAME` bytes from what a client wrote reads
-- exactly the client's messages, in order, and leaves what comes behind them: for any list of
-- messages whose fields are what their Rust types allow and that were all encoded without an
-- error. Below version 14 the runs of a `ForwardAck` are dropped.
pub receive-encode :
    (spoken : ℕ) (ms : List ClientMessage) (sent : Bytes)
    → All IsClientMessage ms
    → put_each (encode_client spoken) ms ≡ ok sent
    → (rest : Bytes)
    → repeat (length ms) (receive max_client_frame (get_client spoken)) (sent ++ rest)
      ≡ ok (map (client_at spoken) ms, rest)
receive-encode spoken ms sent h encoded rest = (Trips-stream spoken ms h).trip sent encoded rest
