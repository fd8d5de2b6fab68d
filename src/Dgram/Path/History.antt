-- ===== src/Dgram/Path/History.antt =====
-- The path among what happens to it: a record beside the validator of what came from each address
-- and of what went there, kept without a look at what the validator thinks of the address.
use braid.Prelude.{
  ℕ, ◌+◌, Bool, false, not, ◌&&◌, ◌||◌, Option, none, some, List, [], ◌∷◌, ◌==◌, if◌then◌else◌,
}
use braid.Dgram.Path.{
  PathValidator, dialled, claimed_by, arrived, poll_challenge, may_send, spent, answered,
}

-- A datagram that authenticated arrives, one is sent if it may be, a challenge is polled, and the
-- answer to one arrives.
pub data Event : Type 0 where
  arrive : (from bytes now : ℕ) → Event
  send : (to bytes : ℕ) → Event
  poll : (now : ℕ) (drawn second : Option ℕ) → Event
  answer : (from token : ℕ) → Event

-- For each address: the bytes that came from it, the bytes that went there before it had proved
-- itself, the challenges handed out for it and their tokens, and whether it has proved itself.
pub record History : Type 0 where
  pub path : PathValidator
  pub got : ℕ → ℕ
  pub out : ℕ → ℕ
  pub asked : ℕ → ℕ
  pub told : ℕ → ℕ → Bool
  pub proved : ℕ → Bool

abbrev pub is_to : Option (ℕ × ℕ) → ℕ → ℕ
is_to none a = 0
is_to (some (at, token)) a = if at == a then 1 else 0

abbrev pub tells : Option (ℕ × ℕ) → ℕ → ℕ → Bool
tells none a t = false
tells (some (at, token)) a t = (at == a) && (token == t)

unfoldable pub sent_to : History → ℕ → ℕ → History
sent_to h to bytes = record h {
  path = spent h.path to bytes;
  out = λ a. h.out a + (if (to == a) && not (h.proved a) then bytes else 0);
}

unfoldable pub step : History → Event → History
step h (arrive from bytes now) = record h {
  path = (arrived h.path from bytes now).0;
  got = λ a. h.got a + (if from == a then bytes else 0);
}
step h (send to bytes) = if may_send h.path to bytes then sent_to h to bytes else h
step h (poll now drawn second) =
    let (path', sent) = poll_challenge h.path now drawn second in
    record h {
      path = path';
      asked = λ a. h.asked a + is_to sent a;
      told = λ a t. h.told a t || tells sent a t;
    }
step h (answer from token) = record h {
  path = (answered h.path from token).0;
  proved = λ a. h.proved a || (from == a) && h.told a token;
}

unfoldable pub run : History → List Event → History
run h [] = h
run h (e ∷ es) = run (step h e) es

-- An end that dialled its peer was given the address over the authenticated channel, so that peer
-- has proved itself; an end that is shown a claimed address knows of none that has.
pub data Origin : Type 0 where
  dialling claiming : Origin

abbrev pub first_path : Origin → ℕ → PathValidator
first_path dialling peer = dialled peer
first_path claiming peer = claimed_by peer

abbrev pub first_proved : Origin → ℕ → ℕ → Bool
first_proved dialling peer a = peer == a
first_proved claiming peer a = false

abbrev pub start : Origin → ℕ → History
start o peer = record {
  path = first_path o peer;
  got = λ a. 0;
  out = λ a. 0;
  asked = λ a. 0;
  told = λ a t. false;
  proved = first_proved o peer;
}
