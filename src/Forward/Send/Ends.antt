-- ===== src/Forward/Send/Ends.antt =====
-- crates/forward/src/send.rs: the end of the stream, which only `finish` declares.
use braid.Prelude.{ℕ, ◌≡◌, refl, ◌≢◌, true, false, none, some, List, arith, is_some}
use braid.Forward.Wire.{SackRun, Segment}
use braid.Forward.Send.{
  Sender, Owed, writable, write, finish, woken_up, rouse, fill, fill_owed, poll_transmit,
  transmitted, advance, settle_ack, take_ranges, on_ack,
}
use braid.Forward.Send.Emit.{poll_some}
use braid.Forward.Timer.{due}

pub fin-write : (s : Sender) (bytes : List ℕ) (now : ℕ) → (write s bytes now).0.fin ≡ s.fin
unfolding write
fin-write s bytes now = refl

pub write_shut :
    (s : Sender) (bytes : List ℕ) (now : ℕ) → is_some s.fin ≡ true → (write s bytes now).1 ≡ 0
unfolding write writable
write_shut s bytes now h = rw h (omega arith)

pub fin-finish : (s : Sender) → (finish s).fin ≢ none
unfolding finish
fin-finish s h = ground arith

pub fin-poll :
    (wrap : Sender → ℕ) (s : Sender) (now budget : ℕ)
    → (poll_transmit wrap s now budget).0.fin ≡ s.fin
unfolding poll_transmit rouse woken_up
fin-poll wrap s now budget = ground arith

pub fin-on_ack :
    (s : Sender) (off window : ℕ) (held : List SackRun) (now : ℕ)
    → (on_ack s off window held now).0.fin ≡ s.fin
unfolding on_ack take_ranges settle_ack advance
fin-on_ack s off window held now = ground arith

fill_owed-no_end :
    (wrap : Sender → ℕ) (s : Sender) (o : Owed) (segment : Segment) (bytes : List ℕ)
    → s.fin ≡ none
    → fill_owed wrap s o ≡ some (segment, bytes)
    → segment.fin ≡ false
unfolding fill_owed fill
fill_owed-no_end wrap s o segment bytes h e = ground arith

-- No segment marks an end before the end is declared.
pub poll-no_end :
    (wrap : Sender → ℕ) (s : Sender) (now budget : ℕ) (segment : Segment) (bytes : List ℕ)
    → s.fin ≡ none
    → (poll_transmit wrap s now budget).1 ≡ some (segment, bytes)
    → segment.fin ≡ false
unfolding rouse woken_up
poll-no_end wrap s now budget segment bytes h e =
    fill_owed-no_end wrap (rouse s (due s.timer now)) _ segment bytes (ground arith)
      (poll_some wrap s now budget segment bytes e).0

pub fin-transmitted :
    (s : Sender) (segment : Segment) (now : ℕ) → (transmitted s segment now).fin ≡ s.fin
unfolding transmitted
fin-transmitted s segment now = refl
