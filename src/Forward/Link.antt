-- ===== src/Forward/Link.antt =====
-- crates/forward: two streams joined by a link that may lose, repeat and reorder segments.
pub mod Grow
pub mod Exact
mod Tests
use braid.Prelude.{ℕ, ◌≡◌, ◌⊎◌, Option, some, List, [], ◌∷◌, ◌++◌, take}
use braid.Forward.Wire.{SackRun, Segment, Ack}
use braid.Forward.Recv.{Receiver}
use braid.Forward.Send.{Sender, Sent}
use braid.Forward.Stream.{Stream}
use braid.Forward.Stream

-- The way from `near`'s socket to `far`'s. `written` and `read` are what the sockets have handed
-- over and taken so far; `wire` is every segment ever sent.
pub record Link : Type 0 where
  pub near : Stream
  pub far : Stream
  pub written : List ℕ
  pub read : List ℕ
  pub wire : List (Segment × List ℕ)

abbrev pub start : Link
start = record { near = Stream.fresh; far = Stream.fresh; written = []; read = []; wire = [] }

abbrev pub On : Segment × List ℕ → List (Segment × List ℕ) → Type 0
On p [] = ⊥
On p (q ∷ rest) = (p ≡ q) ⊎ On p rest

-- What the sockets, the caller, the link and the peer's acknowledgements may do. A poll may be
-- followed by a send or not; a segment on the wire may arrive at any time, any number of times, or
-- never; and any acknowledgement may reach `near`, lawful or not.
module _ (wrap : Sender → ℕ) (capacity : Receiver → List ℕ → ℕ) where
  pub data Step : Link → Link → Type 0 where
    writes :
        (l : Link) (bytes : List ℕ) (now : ℕ)
        → Step l (record l {
          near = (Stream.write l.near bytes now).0;
          written = l.written ++ take (Stream.write l.near bytes now).1 bytes;
        })
    finishes : (l : Link) → Step l (record l { near = Stream.finish l.near })
    polls :
        (l : Link) (now budget : ℕ)
        → Step l (record l { near = (Stream.poll_transmit wrap l.near now budget).0 })
    sends :
        (l : Link) (now budget : ℕ) (segment : Segment) (bytes : List ℕ)
        → (Stream.poll_transmit wrap l.near now budget).1 ≡ some (segment, bytes)
        → Step l (record l {
          near = Stream.transmitted (Stream.poll_transmit wrap l.near now budget).0 segment now;
          wire = (segment, bytes) ∷ l.wire;
        })
    arrives :
        (l : Link) (segment : Segment) (bytes : List ℕ)
        → On (segment, bytes) l.wire
        → Step l
            (record l { far = (Stream.on_data capacity l.far segment.off segment.fin bytes).0 })
    acked :
        (l : Link) (off window : ℕ) (held : List SackRun) (now : ℕ)
        → Step l (record l { near = (Stream.on_ack l.near off window held now).0 })
    reads :
        (l : Link) (n : ℕ)
        → Step l (record l {
          far = Stream.consume l.far n;
          read = l.read ++ take n (Stream.readable l.far);
        })
    -- The other way of the connection, and the acknowledgements that `far` makes.
    answers :
        (l : Link) (far' : Stream) (ack : Option Ack)
        → Stream.poll_ack l.far ≡ some (far', ack)
        → Step l (record l { far = far' })
    elsewhere :
        (l : Link) (r : Receiver) (s : Sender)
        → Step l (record l {
          near = record { send = l.near.send; recv = r };
          far = record { send = s; recv = l.far.recv };
        })

  pub data Reach : Link → Type 0 where
    begin : Reach start
    next : {l m : Link} → Reach l → Step l m → Reach m
