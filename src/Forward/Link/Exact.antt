-- ===== src/Forward/Link/Exact.antt =====
-- crates/forward: what the far socket reads is what the near socket wrote.
use braid.Prelude.{
  ℕ, ◌≤◌, ◌<◌, ◌≡◌, refl, sym, ◌∙◌, inl, inr, Bool, true, false, Option, none, some, List, [], ◌∷◌,
  ◌++◌, append-nil, arith, Option-cases, length, take, length-append, u64_max,
}
use braid.Prelude.Slices.{take-all}
use braid.Forward.Wire.{Segment, Ack, accepted}
use braid.Forward.Recv.Deliver.{
  Delivers, fresh-Delivers, fin-fresh, end_after, on_data-Delivers, consume_same, consume-Delivers,
}
use braid.Forward.Send.Inv.{Inv, fresh-Inv, write-Inv, finish-Inv, transmitted-Inv, on_ack-Inv}
use braid.Forward.Send.Emit.{poll_transmit-Inv, poll_transmit-lawful}
use braid.Forward.Send.Ends.{
  fin-write, write_shut, fin-finish, fin-poll, fin-on_ack, poll-no_end, fin-transmitted,
}
use braid.Forward.Link.{
  Link, start, On, Step, writes, finishes, polls, sends, arrives, acked, reads, answers, elsewhere,
  Reach, begin, next,
}
use braid.Forward.Link.Grow.{
  Segments, NoEnds, Segments-append, Delivers-append, find_segment, no_end_of,
}
use braid.Forward.Recv.Answer.Runs.{poll_ack-total}
use braid.Forward.Stream
use braid.Forward.Stream.{Stream}
use braid.Forward.Send.{Sender, Sent}
use braid.Forward.Recv.{Receiver}
use braid.Forward.Send

record Good (l : Link) : Type 0 where
  tx : Inv l.written l.near.send
  rx : Delivers l.written l.read l.far.recv
  segments : Segments l.written l.wire
  no_ends : l.near.send.fin ≡ none → NoEnds l.wire
  no_end : l.near.send.fin ≡ none → l.far.recv.fin ≡ none

-- An acknowledgement changes nothing that the invariant speaks of.
poll_ack-Delivers :
    (log taken : List ℕ) (s s' : Stream) (ack : Option Ack)
    → Stream.poll_ack s ≡ some (s', ack)
    → Delivers log taken s.recv
    → Delivers log taken s'.recv × (s'.recv.fin ≡ s.recv.fin)
unfolding Stream.poll_ack
poll_ack-Delivers log taken s s' ack e v = rw (← made) (
  record {
    same = v.same;
    while_open = v.while_open;
    when_closed = v.when_closed;
    declared = v.declared;
    ends = v.ends;
    parts = v.parts;
    clean = v.clean;
  },
  refl,
)
  where
    made : record s { recv = record s.recv { ack_owed = false } } ≡ s'
    made = cc (poll_ack-total s.recv, e)

module _ (wrap : Sender → ℕ) (capacity : Receiver → List ℕ → ℕ) where
  Step-grows : {l m : Link} → Step wrap capacity l m → length l.written ≤ length m.written
  Step-grows (writes l bytes now) =
      omega (arith, length-append l.written (take (Stream.write l.near bytes now).1 bytes))
  Step-grows (finishes l) = omega arith
  Step-grows (polls l now budget) = omega arith
  Step-grows (sends l now budget g bytes e) = omega arith
  Step-grows (arrives l g bytes o) = omega arith
  Step-grows (acked l off window held now) = omega arith
  Step-grows (reads l n) = omega arith
  Step-grows (answers l far' ack e) = omega arith
  Step-grows (elsewhere l r s) = omega arith

  write-Good :
      (l : Link) (bytes : List ℕ) (now : ℕ)
      → Good l
      → Good (record l {
        near = (Stream.write l.near bytes now).0;
        written = l.written ++ take (Stream.write l.near bytes now).1 bytes;
      })
  unfolding Stream.write
  write-Good l bytes now v = elim (Option-cases l.near.send.fin) [
    | inl open_end ↦ record {
      tx = write-Inv l.written l.near.send bytes now v.tx;
      rx = Delivers-append l.written _ l.read l.far.recv (v.no_end open_end) v.rx;
      segments = Segments-append l.written _ l.wire (v.no_ends open_end) v.segments;
      no_ends = λ e. v.no_ends (sym (fin-write l.near.send bytes now) ∙ e);
      no_end = λ e. v.no_end (sym (fin-write l.near.send bytes now) ∙ e);
    }
    | inr (end, shut) ↦
        let none_taken = write_shut l.near.send bytes now (rw shut refl) in
        let same : l.written ++ take (Send.write l.near.send bytes now).1 bytes ≡ l.written =
          rw none_taken (append-nil l.written) in
        record {
          tx = write-Inv l.written l.near.send bytes now v.tx;
          rx = rw same v.rx;
          segments = rw same v.segments;
          no_ends = λ e. v.no_ends (sym (fin-write l.near.send bytes now) ∙ e);
          no_end = λ e. v.no_end (sym (fin-write l.near.send bytes now) ∙ e);
        }
  ]

  sends-Good :
      (l : Link) (now budget : ℕ) (g : Segment) (bytes : List ℕ)
      → (Stream.poll_transmit wrap l.near now budget).1 ≡ some (g, bytes)
      → Good l
      → Good (record l {
        near = Stream.transmitted (Stream.poll_transmit wrap l.near now budget).0 g now;
        wire = (g, bytes) ∷ l.wire;
      })
  unfolding Stream.poll_transmit Stream.transmitted
  sends-Good l now budget g bytes e v =
      let s = l.near.send in
      let (lawful, len, _) = poll_transmit-lawful wrap l.written s now budget g bytes v.tx e in
      let same = fin-poll wrap s now budget in
      record {
        tx =
            transmitted-Inv l.written _ g now (poll_transmit-Inv wrap l.written s now budget v.tx)
              (omega (arith, lawful.piece.inside, len));
        rx = v.rx;
        segments = (lawful, v.segments);
        no_ends = λ f.
            let f' =
              sym same
              ∙ (sym (fin-transmitted (Send.poll_transmit wrap s now budget).0 g now) ∙ f) in
            (poll-no_end wrap s now budget g bytes f' e, v.no_ends f');
        no_end = λ f.
            v.no_end (
              sym same
              ∙ (sym (fin-transmitted (Send.poll_transmit wrap s now budget).0 g now) ∙ f));
      }

  arrives-Good :
      (l : Link) (g : Segment) (bytes : List ℕ)
      → length l.written < u64_max
      → On (g, bytes) l.wire
      → Good l
      → ((Stream.on_data capacity l.far g.off g.fin bytes).1 ≡ accepted)
        × Good (record l { far = (Stream.on_data capacity l.far g.off g.fin bytes).0 })
  unfolding Stream.on_data
  arrives-Good l g bytes short o v =
      let (ok, rx', fin') =
        on_data-Delivers l.written short capacity l.read l.far.recv g.off g.fin bytes v.rx
          (find_segment l.written g bytes l.wire o v.segments) in
      (
        ok,
        record {
          tx = v.tx;
          rx = rx';
          segments = v.segments;
          no_ends = v.no_ends;
          no_end = λ f.
              fin'
              ∙ unmarked l.written g.fin (no_end_of g bytes l.wire o (v.no_ends f)) (v.no_end f);
        },
      )
    where
      unmarked :
          (log : List ℕ) (b : Bool) {known : Option ℕ}
          → b ≡ false
          → known ≡ none
          → end_after log b known ≡ none
      unmarked log b e k = rw e k

  Step-Good : {l m : Link} → Step wrap capacity l m → length m.written < u64_max → Good l → Good m
  unfolding Stream.finish Stream.poll_transmit Stream.on_ack Stream.consume Stream.readable
  Step-Good (writes l bytes now) short v = write-Good l bytes now v
  Step-Good (finishes l) short v = record {
    tx = finish-Inv l.written l.near.send v.tx;
    rx = v.rx;
    segments = v.segments;
    no_ends = λ f. absurd (fin-finish l.near.send f);
    no_end = λ f. absurd (fin-finish l.near.send f);
  }
  Step-Good (polls l now budget) short v = record {
    tx = poll_transmit-Inv wrap l.written l.near.send now budget v.tx;
    rx = v.rx;
    segments = v.segments;
    no_ends = λ f. v.no_ends (sym (fin-poll wrap l.near.send now budget) ∙ f);
    no_end = λ f. v.no_end (sym (fin-poll wrap l.near.send now budget) ∙ f);
  }
  Step-Good (sends l now budget g bytes e) short v = sends-Good l now budget g bytes e v
  Step-Good (arrives l g bytes o) short v = (arrives-Good l g bytes short o v).1
  Step-Good (acked l off window held now) short v = record {
    tx = on_ack-Inv l.written l.near.send off window held now v.tx;
    rx = v.rx;
    segments = v.segments;
    no_ends = λ f. v.no_ends (sym (fin-on_ack l.near.send off window held now) ∙ f);
    no_end = λ f. v.no_end (sym (fin-on_ack l.near.send off window held now) ∙ f);
  }
  Step-Good (reads l n) short v = record {
    tx = v.tx;
    rx = consume-Delivers l.written l.read l.far.recv n v.rx;
    segments = v.segments;
    no_ends = v.no_ends;
    no_end = λ f. (consume_same l.far.recv n).2 ∙ v.no_end f;
  }
  Step-Good (answers l far' ack e) short v =
      let (rx', same) = poll_ack-Delivers l.written l.read l.far far' ack e v.rx in
      record {
        tx = v.tx;
        rx = rx';
        segments = v.segments;
        no_ends = v.no_ends;
        no_end = λ f. same ∙ v.no_end f;
      }
  Step-Good (elsewhere l r s) short v = record {
    tx = v.tx;
    rx = v.rx;
    segments = v.segments;
    no_ends = v.no_ends;
    no_end = v.no_end;
  }

  start-Good : Good start
  unfolding Stream.fresh
  start-Good = record {
    tx = fresh-Inv;
    rx = fresh-Delivers [];
    segments = tt;
    no_ends = λ f. tt;
    no_end = λ f. fin-fresh;
  }

  Reach-Good : {l : Link} → Reach wrap capacity l → length l.written < u64_max → Good l
  Reach-Good begin short = start-Good
  Reach-Good (next r st) short = Step-Good st short (Reach-Good r (omega (arith, Step-grows st)))

  -- Whatever the link loses, repeats or reorders, and whatever acknowledgements arrive, the bytes
  -- that the far socket has read and can read are the first bytes that the near socket wrote, in
  -- order, each once; and once the far end has seen the end they are all of them. Fewer than
  -- 2 ^ 64 - 1 bytes are written.
  pub link-exact :
      (l : Link)
      → Reach wrap capacity l
      → length l.written < u64_max
      → (l.read ++ Stream.readable l.far ≡ take l.far.recv.next l.written)
        × (Stream.peer_finished l.far ≡ true → l.read ++ Stream.readable l.far ≡ l.written)
  unfolding Stream.readable Stream.peer_finished
  link-exact l r short =
      let v = (Reach-Good r short).rx in
      (
        v.same,
        λ done. v.same ∙ take-all l.far.recv.next l.written (omega (arith, v.when_closed done)),
      )

  -- No segment that this sender ever sent makes the far end reset the stream, as long as fewer than
  -- 2 ^ 64 - 1 bytes are written.
  pub link-accepts :
      (l : Link) (segment : Segment) (bytes : List ℕ)
      → Reach wrap capacity l
      → length l.written < u64_max
      → On (segment, bytes) l.wire
      → (Stream.on_data capacity l.far segment.off segment.fin bytes).1 ≡ accepted
  link-accepts l g bytes r short o = (arrives-Good l g bytes short o (Reach-Good r short)).0
