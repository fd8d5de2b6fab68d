-- ===== src/Proto/Frame/Cut.antt =====
-- A message cut short is refused, never read as another: crates/proto/src/lib.rs.
use braid.Prelude.{
  ℕ, ◌+◌, ◌≡◌, refl, sym, ap, ◌∙◌, ◌≢◌, Bool, true, false, [], ◌∷◌, ◌++◌, append-nil, arith, ◌==◌,
  Bytes,
}
use braid.Proto.Outcome.{DecodeError, truncated, Result, ok, err}
use braid.Proto.Cursor.{Written, ◌<+>◌, written, put_u8, ◌>>=◌, u8}
use braid.Proto.Laws.{Extends, Extends-seq, Extends-pure, Extends-fail, Extends-if_not, Extends-if}
use braid.Proto.Field.{Field, IsLawful}
use braid.Proto.Field.Str.Lawful.{
  term_field-IsLawful, pattern_field-IsLawful, target_field-IsLawful, name_field-IsLawful,
}
use braid.Proto.Field.Scalar.{
  u16_field-IsLawful, u64_field-IsLawful, seq_field-IsLawful, stream_field-IsLawful,
}
use braid.Proto.Field.Struct.Lawful.{
  grid_field-IsLawful, range_field-IsLawful, request_field-IsLawful,
}
use braid.Proto.Field.Env.Lawful.{env_field-IsLawful, command_field-IsLawful}
use braid.Proto.Forwarded.Lawful.{Extends-data, Extends-reset}
use braid.Proto.FromClient.{
  ClientMessage, hello, hello_forward, resume, input, resize, request_repaint, screen_ack, close,
  detach, pong, consumed, list_sessions, kill_session, search_history, forward_open, forward_data,
  forward_ack, forward_reset, rename_session, list_names, client_tag_base, put_client, get_hello,
  get_hello_forward, get_resume, get_forward_open, get_one, get_two, client_fields, get_client,
}
use braid.Proto.FromClient.Lawful.{
  id_field-IsLawful, input_chunk-IsLawful, IsClientMessage, Trips-client,
}
use braid.Proto.Frame.{message, decode_client}

Extends-one :
    {A : Type 0} {f : Field A} {Fits : A → Type 0} (laws : IsLawful f Fits)
    (message : A → ClientMessage)
    → Extends (get_one f message)
unfolding get_one
Extends-one laws message = Extends-seq laws.extends (λ x. Extends-pure _)

Extends-two :
    {A B : Type 0} {f : Field A} {g : Field B} {Fits : A → Type 0} {Suits : B → Type 0}
    (laws : IsLawful f Fits) (rules : IsLawful g Suits) (message : A → B → ClientMessage)
    → Extends (get_two f g message)
unfolding get_two
Extends-two laws rules message =
    Extends-seq laws.extends (λ x. Extends-seq rules.extends (λ y. Extends-pure _))

Extends-hello : Extends get_hello
unfolding get_hello
Extends-hello = Extends-seq range_field-IsLawful.extends (λ versions.
    Extends-seq grid_field-IsLawful.extends (λ size.
      Extends-seq term_field-IsLawful.extends (λ term.
        Extends-seq env_field-IsLawful.extends (λ env.
          Extends-seq command_field-IsLawful.extends
            (λ command. Extends-seq id_field-IsLawful.extends (λ client. Extends-pure _))))))

Extends-hello_forward : Extends get_hello_forward
unfolding get_hello_forward
Extends-hello_forward =
    Extends-seq range_field-IsLawful.extends
      (λ versions. Extends-seq id_field-IsLawful.extends (λ client. Extends-pure _))

Extends-resume : Extends get_resume
unfolding get_resume
Extends-resume = Extends-seq range_field-IsLawful.extends (λ versions.
    Extends-seq seq_field-IsLawful.extends
      (λ seq. Extends-seq request_field-IsLawful.extends (λ request. Extends-pure _)))

Extends-forward_open : Extends get_forward_open
unfolding get_forward_open
Extends-forward_open = Extends-seq seq_field-IsLawful.extends (λ seq.
    Extends-seq stream_field-IsLawful.extends
      (λ stream. Extends-seq target_field-IsLawful.extends (λ target. Extends-pure _)))

Extends-client_fields :
    (spoken tag : ℕ) → (tag == client_tag_base + 16) ≡ false → Extends (client_fields spoken tag)
unfolding client_fields
Extends-client_fields spoken tag other =
    search
      (
        Extends-if,
        Extends-if_not,
        Extends-pure,
        Extends-fail,
        Extends-hello,
        Extends-hello_forward,
        Extends-resume,
        Extends-forward_open,
        Extends-data,
        Extends-reset,
        Extends-one u64_field-IsLawful,
        Extends-one seq_field-IsLawful,
        Extends-one id_field-IsLawful,
        Extends-two seq_field-IsLawful input_chunk-IsLawful,
        Extends-two seq_field-IsLawful grid_field-IsLawful,
        Extends-two seq_field-IsLawful seq_field-IsLawful,
        Extends-two u64_field-IsLawful u64_field-IsLawful,
        Extends-two pattern_field-IsLawful u16_field-IsLawful,
        Extends-two id_field-IsLawful name_field-IsLawful,
      )
      depth 24 fits 3000

-- The messages whose last field is of version 0, so that no prefix of theirs is whole.
unfoldable pub is_fixed : ClientMessage → Bool
is_fixed (forward_ack stream off window held) = false
is_fixed m = true

first_byte :
    (t : ℕ) (z : Written) (x : ℕ) (c : Bytes)
    → put_u8 t <+> z ≡ ok (x ∷ c)
    → (t == 17) ≡ false
    → (x == 17) ≡ false
unfolding put_u8 ◌<+>◌ written
first_byte t (ok b) x c h other = ground (arith, other)
first_byte t (err e) x c h other = cc

only_byte : (t x : ℕ) (c : Bytes) → put_u8 t ≡ ok (x ∷ c) → (t == 17) ≡ false → (x == 17) ≡ false
unfolding put_u8 written
only_byte t x c h other = ground (arith, other)

tag_other :
    (spoken : ℕ) (m : ClientMessage) (x : ℕ) (c : Bytes)
    → is_fixed m ≡ true
    → put_client spoken m ≡ ok (x ∷ c)
    → (x == 17) ≡ false
unfolding put_client is_fixed
tag_other spoken (hello versions size term env command client) x c f h = first_byte 1 _ x c h refl
tag_other spoken (hello_forward versions client) x c f h = first_byte 2 _ x c h refl
tag_other spoken (resume versions seq request) x c f h = first_byte 3 _ x c h refl
tag_other spoken (input seq bytes) x c f h = first_byte 4 _ x c h refl
tag_other spoken (resize seq size) x c f h = first_byte 5 _ x c h refl
tag_other spoken (request_repaint seq) x c f h = first_byte 6 _ x c h refl
tag_other spoken (screen_ack generation version) x c f h = first_byte 7 _ x c h refl
tag_other spoken (close seq) x c f h = first_byte 8 _ x c h refl
tag_other spoken (detach seq) x c f h = first_byte 9 _ x c h refl
tag_other spoken (pong token off) x c f h = first_byte 10 _ x c h refl
tag_other spoken (consumed off) x c f h = first_byte 11 _ x c h refl
tag_other spoken list_sessions x c f h = only_byte 12 x c h refl
tag_other spoken (kill_session session_id) x c f h = first_byte 13 _ x c h refl
tag_other spoken (search_history pattern most) x c f h = first_byte 14 _ x c h refl
tag_other spoken (forward_open seq stream target) x c f h = first_byte 15 _ x c h refl
tag_other spoken (forward_data stream off fin bytes) x c f h = first_byte 16 _ x c h refl
tag_other spoken (forward_ack stream off window held) x c f h = cc
tag_other spoken (forward_reset stream reason) x c f h = first_byte 18 _ x c h refl
tag_other spoken (rename_session session_id name) x c f h = first_byte 19 _ x c h refl
tag_other spoken list_names x c f h = only_byte 20 x c h refl

get_client-extend :
    (spoken x : ℕ) (c : Bytes) (v : ClientMessage) (rest more : Bytes)
    → (x == 17) ≡ false
    → get_client spoken (x ∷ c) ≡ ok (v, rest)
    → get_client spoken (x ∷ c ++ more) ≡ ok (v, rest ++ more)
unfolding get_client ◌>>=◌ u8
get_client-extend spoken x c v rest more other h =
    (Extends-client_fields spoken x other).extend c v rest more h

get_client-nil : (spoken : ℕ) → get_client spoken [] ≡ err truncated
unfolding get_client ◌>>=◌ u8
get_client-nil spoken = refl

append-nil_inv : (rest more : Bytes) → rest ++ more ≡ [] → more ≡ []
append-nil_inv [] more h = h
append-nil_inv (x ∷ rest) more h = cc

same_rest :
    {v w : ClientMessage} {r s : Bytes}
    → Path (Result DecodeError (ClientMessage × Bytes)) (ok (v, r)) (ok (w, s))
    → r ≡ s
same_rest h = cc

message-ok :
    (r : Result DecodeError (ClientMessage × Bytes)) {v : ClientMessage}
    → message r ≡ ok v
    → (rest : Bytes) × (r ≡ ok (v, rest))
unfolding message
message-ok (ok (m, rest)) h = (rest, cc)
message-ok (err e) h = cc

cut_whole :
    (spoken : ℕ) (m : ClientMessage) (cut more rest : Bytes) (v : ClientMessage)
    → IsClientMessage m
    → is_fixed m ≡ true
    → put_client spoken m ≡ ok (cut ++ more)
    → get_client spoken cut ≡ ok (v, rest)
    → more ≡ []
cut_whole spoken m [] more rest v fits fixed h got =
    absurd (refuse_nil (sym (get_client-nil spoken) ∙ got))
  where
    refuse_nil :
        {x : ClientMessage × Bytes}
        → Path (Result DecodeError (ClientMessage × Bytes)) (err truncated) (ok x)
        → ⊥
    refuse_nil h = cc
cut_whole spoken m (x ∷ cut) more rest v fits fixed h got =
    let longer =
      get_client-extend spoken x cut v rest more (tag_other spoken m x (cut ++ more) fixed h) got in
    let whole =
      ap (get_client spoken) (sym (append-nil (x ∷ cut ++ more)))
      ∙ (Trips-client spoken m fits).trip (x ∷ cut ++ more) h [] in
    append-nil_inv rest more (same_rest (sym longer ∙ whole))

-- A body cut short is refused, whatever the cut, and never taken for a message: for every message
-- but `ForwardAck`, whose last field an older peer does not send.
pub decode-cut :
    (spoken : ℕ) (m v : ClientMessage) (cut more : Bytes)
    → IsClientMessage m
    → is_fixed m ≡ true
    → put_client spoken m ≡ ok (cut ++ more)
    → more ≢ []
    → decode_client spoken cut ≢ ok v
unfolding decode_client
decode-cut spoken m v cut more fits fixed h left got =
    let (rest, read) = message-ok (get_client spoken cut) got in
    left (cut_whole spoken m cut more rest v fits fixed h read)
