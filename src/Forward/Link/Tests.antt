-- ===== src/Forward/Link/Tests.antt =====
-- crates/forward: a link on which a segment arrives twice.
use braid.Prelude.{
  ℕ, ◌<◌, ◌≡◌, refl, inl, true, List, [], ◌∷◌, ◌++◌, some, arith, length, take, u64_max,
}
use braid.Forward.Wire.{Segment, accepted}
use braid.Forward.Timer
use braid.Forward.Recv.{Receiver}
use braid.Forward.Send
use braid.Forward.Stream
use braid.Forward.Link.{Link, start, writes, finishes, sends, arrives, Reach, begin, next}
use braid.Forward.Link.Exact.{link-exact, link-accepts}

abbrev unwrapped : Send.Sender → ℕ
unwrapped s = length s.buffer

abbrev reserved : Receiver → List ℕ → ℕ
reserved r b = length b

abbrev text : List ℕ
text = 11 ∷ 12 ∷ 13 ∷ []

abbrev whole : Segment
whole = record { off = 0; fin = true; len = 3 }

abbrev typed : Link
typed = record start {
  near = (Stream.write start.near text 0).0;
  written = [] ++ take (Stream.write start.near text 0).1 text;
}

abbrev closed : Link
closed = record typed { near = Stream.finish typed.near }

abbrev sent : Link
sent = record closed {
  near = Stream.transmitted (Stream.poll_transmit unwrapped closed.near 0 9).0 whole 0;
  wire = (whole, text) ∷ [];
}

abbrev arrived : Link
arrived = record sent { far = (Stream.on_data reserved sent.far 0 true text).0 }

-- The second copy.
abbrev repeated : Link
repeated = record arrived { far = (Stream.on_data reserved arrived.far 0 true text).0 }

typed_polled : (Stream.poll_transmit unwrapped closed.near 0 9).1 ≡ some (whole, text)
unfolding Stream.poll_transmit Stream.write Stream.finish Stream.fresh Send.fresh Send.write
    Send.writable Send.finish Send.poll_transmit Send.rouse Send.owed Send.owed_fresh Send.unheld
    Send.next_held Send.fill_owed Send.fill Send.cut Timer.due Timer.interval Timer.fresh Timer.arm
typed_polled = refl

repeated-Reach : Reach unwrapped reserved repeated
repeated-Reach =
    next
      (next
        (next (next (next begin (writes start text 0)) (finishes typed))
          (sends closed 0 9 whole text typed_polled))
        (arrives sent whole text (inl refl)))
      (arrives arrived whole text (inl refl))

short : length repeated.written < u64_max
unfolding Stream.write Stream.fresh Send.write Send.writable Send.fresh
short = omega arith

link-exact_example :
    ([] ++ Stream.readable repeated.far ≡ take repeated.far.recv.next repeated.written)
    × (Stream.peer_finished repeated.far ≡ true
        → [] ++ Stream.readable repeated.far ≡ repeated.written)
link-exact_example = link-exact unwrapped reserved repeated repeated-Reach short

link-accepts_example : (Stream.on_data reserved repeated.far 0 true text).1 ≡ accepted
link-accepts_example =
    link-accepts unwrapped reserved repeated whole text repeated-Reach short (inl refl)
