-- ===== src/Forward/Stream.antt =====
-- crates/forward/src/lib.rs: `Stream`, the two halves of one forwarded connection.
use braid.Prelude.{ℕ, Bool, ◌&&◌, Option, List, ◌==◌, length}
use braid.Forward.Wire.{SackRun, Segment, Ack, Verdict}
use mathlib.Core.Option
use braid.Forward.Recv.{Receiver}
use braid.Forward.Send.{Sender, Sent}
use braid.Forward.Recv
use braid.Forward.Send

pub record Stream : Type 0 where
  pub send : Sender
  pub recv : Receiver

unfoldable pub fresh : Stream
fresh = record { send = Send.fresh; recv = Recv.fresh }

pub writable : Stream → ℕ
writable s = Send.writable s.send

unfoldable pub write : Stream → List ℕ → ℕ → Stream × ℕ
write s bytes now = let (t, n) = Send.write s.send bytes now in (record s { send = t }, n)

unfoldable pub finish : Stream → Stream
finish s = record s { send = Send.finish s.send }

unfoldable pub poll_transmit : (Sender → ℕ) → Stream → ℕ → ℕ → Stream × Sent
poll_transmit wrap s now budget =
    let (t, sent) = Send.poll_transmit wrap s.send now budget in (record s { send = t }, sent)

unfoldable pub transmitted : Stream → Segment → ℕ → Stream
transmitted s segment now = record s { send = Send.transmitted s.send segment now }

unfoldable pub on_ack : Stream → ℕ → ℕ → List SackRun → ℕ → Stream × Verdict
on_ack s off window held now =
    let (t, v) = Send.on_ack s.send off window held now in (record s { send = t }, v)

unfoldable pub on_data : (Receiver → List ℕ → ℕ) → Stream → ℕ → Bool → List ℕ → Stream × Verdict
on_data capacity s off fin bytes =
    let (r, v) = Recv.on_data capacity s.recv off fin bytes in (record s { recv = r }, v)

-- `none` is the panic that `Answer.Runs.held_runs-total` rules out.
unfoldable pub poll_ack : Stream → Option (Stream × Option Ack)
poll_ack s = Option.map (λ p. (record s { recv = p.0 }, p.1)) (Recv.Answer.poll_ack s.recv)

-- The two slices of the queue, one after the other.
unfoldable pub readable : Stream → List ℕ
readable s = s.recv.ready

unfoldable pub consume : Stream → ℕ → Stream
consume s n = record s { recv = Recv.consume s.recv n }

unfoldable pub peer_finished : Stream → Bool
peer_finished s = s.recv.finished

unfoldable pub is_done : Stream → Bool
is_done s = Send.is_done s.send && s.recv.finished && length s.recv.ready == 0

pub deadline : Stream → ℕ → Option ℕ
deadline s now = Send.deadline s.send now
