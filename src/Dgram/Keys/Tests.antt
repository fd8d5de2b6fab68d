-- ===== src/Dgram/Keys/Tests.antt =====
-- The schedule of crates/dgram/src/keys.rs over a hash that writes down what it hashed.
use braid.Prelude.{ℕ, ◌≡◌, refl, some, List, [], ◌∷◌, arith}
use braid.Dgram.Keys.{
  client_to_server, server_to_client, opposite, Context, towards, epoch_ratchet, next_epoch,
  previous, ahead_by, unreachable, KeySchedule, reach, reading, slot_at, advance, new_schedule,
  rotate, fill, derive_ahead, peek_ahead, walk, follow, key_for,
}
use braid.Dgram.Keys.Agree.{Call, rotation, forged, authentic, step, run, opens-sealed}

abbrev written : Context → List ℕ → List ℕ
written (towards client_to_server) s = 1 ∷ s
written (towards server_to_client) s = 2 ∷ s
written epoch_ratchet s = 0 ∷ s

-- The client rotates three times. The server is shown a forgery two epochs ahead, and opened one
-- datagram of the first epoch after its own.
abbrev rotations : List Call
rotations = rotation ∷ rotation ∷ rotation ∷ []

abbrev arrivals : List Call
arrivals = forged 2 ∷ authentic 1 ∷ rotation ∷ []

abbrev client : KeySchedule (List ℕ)
client = run written [] (new_schedule written [] client_to_server) rotations

abbrev server : KeySchedule (List ℕ)
server = run written [] (new_schedule written [] server_to_client) arrivals

server_epochs :
    (server.recv.epoch ≡ 1)
    × (reach server 0 ≡ previous)
    × (reach server 3 ≡ ahead_by 2)
    × (reach server 6 ≡ unreachable)
unfolding run step rotate key_for reach peek_ahead derive_ahead fill follow walk advance next_epoch
    new_schedule opposite slot_at reading
server_epochs = (refl, refl, refl, refl)

client_key : client.send_key ≡ 1 ∷ 0 ∷ 0 ∷ 0 ∷ []
unfolding run step rotate advance next_epoch new_schedule
client_key = refl

-- Past the last epoch a call of `follow` leaves the key behind the epoch. No epoch that a byte names
-- is that far ahead.
abbrev at_the_end : KeySchedule (List ℕ)
at_the_end = record (new_schedule written [] client_to_server) {
  recv = record { epoch = 254; secret = [] };
}

follow_torn :
    let s = (follow written at_the_end 2).0 in
    (s.recv.epoch ≡ 255) × (s.recv_key ≡ at_the_end.recv_key)
unfolding follow walk advance next_epoch new_schedule
follow_torn = (refl, refl)

opens-sealed_example : (key_for written server client.send.epoch).1 ≡ some client.send_key
unfolding run step rotate key_for reach peek_ahead derive_ahead fill follow walk advance next_epoch
    new_schedule opposite slot_at reading
opens-sealed_example =
    opens-sealed written [] client_to_server rotations arrivals tt (omega arith, (omega arith, tt))
      (omega arith) (omega arith)
