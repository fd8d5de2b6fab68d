-- ===== src/Dgram/Keys.antt =====
-- crates/dgram/src/keys.rs: the keys of each epoch, and which of them opens a datagram
-- (crates/dgram/src/endpoint.rs, `recv`). The hash is a parameter: `derive_key` is
-- `blake3::derive_key` under one of three contexts, and a key is the secret that its cipher is made of.
pub mod Secrets
pub mod Exact
pub mod Found
pub mod Agree
pub mod Tests
use braid.Prelude.{
  ℕ, zero, suc, ◌+◌, ◌-◌, Bool, true, false, ◌&&◌, ◌||◌, Option, none, some, List, [], ◌∷◌, ltb,
  leb, ◌==◌, if◌then◌else◌, is_some,
}

pub data Direction : Type 0 where
  client_to_server server_to_client : Direction

unfoldable pub opposite : Direction → Direction
opposite client_to_server = server_to_client
opposite server_to_client = client_to_server

-- The strings that the hash is called with.
pub data Context : Type 0 where
  towards : Direction → Context
  epoch_ratchet : Context

abbrev pub last_epoch : ℕ
last_epoch = 255

-- `Epoch::next`, whose sum is checked.
unfoldable pub next_epoch : ℕ → Option ℕ
next_epoch e = if ltb e last_epoch then some (e + 1) else none

abbrev pub max_epoch_catchup : ℕ
max_epoch_catchup = 4

pub record Ratchet (S : Type 0) : Type 0 where
  pub epoch : ℕ
  pub secret : S

pub data Reach : Type 0 where
  current previous : Reach
  ahead_by : ℕ → Reach
  unreachable : Reach

pub record KeySchedule (S : Type 0) : Type 0 where
  pub send : Ratchet S
  pub send_key : S
  pub sending : Direction
  pub recv : Ratchet S
  pub recv_key : S
  pub recv_previous : Option (ℕ × S)
  pub ahead : List (Option S)

module _ {S : Type 0} where
  abbrev pub no_keys : List (Option S)
  no_keys = none ∷ none ∷ none ∷ none ∷ []

  abbrev pub is_retired : Option (ℕ × S) → ℕ → Bool
  is_retired none epoch = false
  is_retired (some (retired, key)) epoch = retired == epoch

  unfoldable pub reach : KeySchedule S → ℕ → Reach
  reach s epoch =
      if epoch == s.recv.epoch
      then current
      else if is_retired s.recv_previous epoch
      then previous
      else if leb s.recv.epoch epoch && leb (epoch - s.recv.epoch) max_epoch_catchup
      then ahead_by (epoch - s.recv.epoch)
      else unreachable

  abbrev pub retired_key : Option (ℕ × S) → Option S
  retired_key none = none
  retired_key (some (retired, key)) = some key

  unfoldable pub reading : KeySchedule S → Reach → Option S
  reading s current = some s.recv_key
  reading s previous = retired_key s.recv_previous
  reading s (ahead_by n) = none
  reading s unreachable = none

  -- An index that has been tested.
  unfoldable pub slot_at : ℕ → List (Option S) → Option S
  slot_at i [] = none
  slot_at zero (slot ∷ slots) = slot
  slot_at (suc i) (slot ∷ slots) = slot_at i slots

module _ {S : Type 0} (derive_key : Context → S → S) where
  abbrev pub stepped : Ratchet S → Option ℕ → Option (Ratchet S)
  stepped r none = none
  stepped r (some next) = some (record { epoch = next; secret = derive_key epoch_ratchet r.secret })

  unfoldable pub advance : Ratchet S → Option (Ratchet S)
  advance r = stepped r (next_epoch r.epoch)

  unfoldable pub new_schedule : S → Direction → KeySchedule S
  new_schedule root sending = record {
    send = record { epoch = 0; secret = root };
    send_key = derive_key (towards sending) root;
    sending = sending;
    recv = record { epoch = 0; secret = root };
    recv_key = derive_key (towards (opposite sending)) root;
    recv_previous = none;
    ahead = no_keys;
  }

  abbrev pub rotated : KeySchedule S → Option (Ratchet S) → KeySchedule S × Option ℕ
  rotated s none = (s, none)
  rotated s (some r) =
      (record s { send = r; send_key = derive_key (towards s.sending) r.secret }, some r.epoch)

  unfoldable pub rotate : KeySchedule S → KeySchedule S × Option ℕ
  rotate s = rotated s (advance s.send)

  -- The loop of `derive_ahead`, which returns at the last epoch.
  unfoldable pub fill : Direction → Ratchet S → List (Option S) → List (Option S)
  fill d r [] = []
  fill d r (slot ∷ slots) = elim (advance r) [
    | none ↦ slot ∷ slots
    | some r' ↦ some (derive_key (towards d) r'.secret) ∷ fill d r' slots
  ]

  unfoldable pub derive_ahead : KeySchedule S → KeySchedule S
  derive_ahead s = record s { ahead = fill (opposite s.sending) s.recv s.ahead }

  abbrev pub peeked : KeySchedule S → ℕ → KeySchedule S × Option S
  peeked s slot = (s, slot_at slot s.ahead)

  unfoldable pub peek_ahead : KeySchedule S → ℕ → KeySchedule S × Option S
  peek_ahead s n =
      if (n == 0) || ltb max_epoch_catchup n
      then (s, none)
      else if is_some (slot_at (n - 1) s.ahead)
      then peeked s (n - 1)
      else peeked (derive_ahead s) (n - 1)

  -- The loop of `follow`, and whether it came to its end.
  unfoldable pub walk : ℕ → Ratchet S → Ratchet S × Bool
  walk zero r = (r, true)
  walk (suc n) r = elim (advance r) [ none ↦ (r, false) | some r' ↦ walk n r' ]

  abbrev pub followed : KeySchedule S → Ratchet S × Bool → KeySchedule S × Option ℕ
  followed s (r, false) = (record s { recv = r }, none)
  followed s (r, true) = (
    record s {
      recv = r;
      recv_key = derive_key (towards (opposite s.sending)) r.secret;
      recv_previous = some (s.recv.epoch, s.recv_key);
      ahead = no_keys;
    },
    some r.epoch,
  )

  unfoldable pub follow : KeySchedule S → ℕ → KeySchedule S × Option ℕ
  follow s n = if (n == 0) || ltb max_epoch_catchup n then (s, none) else followed s (walk n s.recv)

  -- The key that `recv` tries on a datagram of an epoch.
  abbrev pub key_by : KeySchedule S → Reach → KeySchedule S × Option S
  key_by s (ahead_by n) = peek_ahead s n
  key_by s current = (s, reading s current)
  key_by s previous = (s, reading s previous)
  key_by s unreachable = (s, none)

  unfoldable pub key_for : KeySchedule S → ℕ → KeySchedule S × Option S
  key_for s epoch = key_by s (reach s epoch)

  -- What it does once the tag is found to be right.
  abbrev pub opened : KeySchedule S → Reach → KeySchedule S
  opened s (ahead_by n) = (follow s n).0
  opened s current = s
  opened s previous = s
  opened s unreachable = s
