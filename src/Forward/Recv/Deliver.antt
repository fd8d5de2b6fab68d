-- ===== src/Forward/Recv/Deliver.antt =====
-- crates/forward/src/recv.rs: what the receiver hands to the socket is the peer's stream.
use braid.Prelude.{
  ℕ, ◌+◌, ◌≤◌, ◌<◌, min, ◌≡◌, refl, sym, ap, ◌∙◌, inl, inr, Bool, true, false, not, ◌&&◌, Option,
  none, some, List, [], ◌++◌, append_assoc, arith, ltb, ◌==◌, if◌then◌else◌, Bool-cases,
  is_some_and, length, take, drop, u64_max,
}
use braid.Forward.Wire.{accepted}
use braid.Forward.Piece.{IsPiece, IsSegment, EndsAt}
use braid.Forward.Recv.{Receiver, fresh, consume, settle_end, declare, accept, receive, on_data}
use braid.Prelude.Slices.{take-all, take-append-drop-min}
use braid.Forward.Recv.Pieces.{Empties, Parts, saturating_add-piece, held_past-Parts}
use braid.Forward.Recv.Drain.{accept-Placed}
use mathlib.Core.Path.{subst}

-- `log` is what the peer writes in all, `taken` are the bytes that the socket has had so far.
pub record Delivers (log taken : List ℕ) (r : Receiver) : Type 0 where
  pub same : taken ++ r.ready ≡ take r.next log
  pub while_open : r.finished ≡ false → r.next ≤ length log
  pub when_closed : r.finished ≡ true → r.next ≡ length log + 1
  pub declared : r.finished ≡ true → r.fin ≡ some (length log)
  pub ends : EndsAt log r.fin
  pub parts : Parts log r.held
  pub clean : Empties r.spare

pub fresh-Delivers : (log : List ℕ) → Delivers log [] fresh
unfolding fresh
fresh-Delivers log = record {
  same = refl;
  while_open = λ _. omega arith;
  when_closed = λ e. cc;
  declared = λ e. cc;
  ends = tt;
  parts = tt;
  clean = tt;
}

pub fin-fresh : fresh.fin ≡ none
unfolding fresh
fin-fresh = refl

-- What `declare` leaves as the end of the stream.
abbrev pub end_after : List ℕ → Bool → Option ℕ → Option ℕ
end_after log fin known = if fin then some (length log) else known

EndsAt-end_after :
    (log : List ℕ) (fin : Bool) (known : Option ℕ)
    → EndsAt log known
    → EndsAt log (end_after log fin known)
EndsAt-end_after log true known e = refl
EndsAt-end_after log false known e = e

end_after-some :
    (log : List ℕ) (fin : Bool) (known : Option ℕ)
    → known ≡ some (length log)
    → end_after log fin known ≡ some (length log)
end_after-some log true known e = refl
end_after-some log false known e = e

pub declare-segment :
    (log taken : List ℕ) (r : Receiver) (off : ℕ) (fin : Bool) (bytes : List ℕ)
    → Delivers log taken r
    → IsSegment log off fin bytes
    → declare r (off + length bytes) fin ≡ some (record r { fin = end_after log fin r.fin })
unfolding declare
declare-segment log taken r off fin bytes v s =
    ground (arith, held_past-Parts log r.held v.parts, s.end, s.piece.inside, v.ends)

fin-settle_end : (r : Receiver) → (settle_end r).fin ≡ r.fin
unfolding settle_end
fin-settle_end r = ground arith

settle_end-Delivers :
    (log taken : List ℕ) (r : Receiver) → Delivers log taken r → Delivers log taken (settle_end r)
unfolding settle_end
settle_end-Delivers log taken r v =
    elim (Bool-cases (not r.finished && is_some_and r.fin (λ e. e == r.next))) [
      | inl now ↦ rw now (closed (opened r.finished r.fin now) (ended r.finished r.fin now))
      | inr no_end ↦ rw no_end v
    ]
  where
    opened :
        (b : Bool) (o : Option ℕ) → not b && is_some_and o (λ e. e == r.next) ≡ true → b ≡ false
    opened true o h = cc
    opened false o h = refl

    ended :
        (b : Bool) (o : Option ℕ)
        → not b && is_some_and o (λ e. e == r.next) ≡ true
        → o ≡ some r.next
    ended b none h = ground arith
    ended b (some e) h = ground arith

    reached : (o : Option ℕ) → EndsAt log o → o ≡ some r.next → r.next ≡ length log
    reached none e h = cc
    reached (some e) q h = ground arith

    closed :
        r.finished ≡ false
        → r.fin ≡ some r.next
        → Delivers log taken (record r { next = r.next + 1; finished = true })
    closed op f =
        let e = reached r.fin v.ends f in
        record {
          same =
              v.same
              ∙ take-all r.next log (omega arith)
              ∙ sym (take-all (r.next + 1) log (omega arith));
          while_open = λ h. cc;
          when_closed = λ _. omega arith;
          declared = λ _. f ∙ ap {B = Option ℕ} some e;
          ends = v.ends;
          parts = v.parts;
          clean = v.clean;
        }

accept_old :
    (capacity : Receiver → List ℕ → ℕ) (r : Receiver) (off : ℕ) (bytes : List ℕ) (end : ℕ)
    → ltb r.next end ≡ false
    → accept capacity r off bytes end ≡ r
unfolding accept
accept_old capacity r off bytes end h = rw h

accept-Delivers :
    (log : List ℕ) (short : length log < u64_max) (capacity : Receiver → List ℕ → ℕ)
    (taken : List ℕ) (r : Receiver) (off : ℕ) (bytes : List ℕ)
    → Delivers log taken r
    → IsPiece log off bytes
    → Delivers log taken (accept capacity r off bytes (off + length bytes))
      × ((accept capacity r off bytes (off + length bytes)).fin ≡ r.fin)
accept-Delivers log short capacity taken r off bytes v p = elim (Bool-cases r.finished) [
  | inl done ↦
      let beyond : ltb r.next (off + length bytes) ≡ false =
        ground (arith, v.when_closed done, p.inside) in
      rw (accept_old capacity r off bytes (off + length bytes) beyond) (v, refl)
  | inr going ↦
      let q =
        accept-Placed log short capacity taken r off bytes
          (record {
            front = record { inside = v.while_open going; same = v.same };
            parts = v.parts;
            clean = v.clean;
          })
          p in
      (
        record {
          same = q.front.same;
          while_open = λ _. q.front.inside;
          when_closed = λ e. cc (q.finished_same, going);
          declared = λ e. cc (q.finished_same, going);
          ends = subst (EndsAt log) (sym q.fin_same) v.ends;
          parts = q.parts;
          clean = q.clean;
        },
        q.fin_same,
      )
]

-- A segment of the stream is accepted, whatever arrived before it; what the socket reads stays the
-- front of the stream; and the end is taken from a segment that marks it, and from no other. The
-- stream has fewer than 2 ^ 64 - 1 bytes, and the receiver holds pieces of it.
pub on_data-Delivers :
    (log : List ℕ) (short : length log < u64_max) (capacity : Receiver → List ℕ → ℕ)
    (taken : List ℕ) (r : Receiver) (off : ℕ) (fin : Bool) (bytes : List ℕ)
    → Delivers log taken r
    → IsSegment log off fin bytes
    → ((on_data capacity r off fin bytes).1 ≡ accepted)
      × Delivers log taken (on_data capacity r off fin bytes).0
      × ((on_data capacity r off fin bytes).0.fin ≡ end_after log fin r.fin)
unfolding on_data receive
on_data-Delivers log short capacity taken r off fin bytes v s =
    rw
      (
        saturating_add-piece log off bytes s.piece short,
        declare-segment log taken r off fin bytes v s,
        receive,
      )
      (refl, settle_end-Delivers log taken _ placed.0, fin-settle_end _ ∙ placed.1)
  where
    marked : Delivers log taken (record r { fin = end_after log fin r.fin; ack_owed = true })
    marked = record {
      same = v.same;
      while_open = v.while_open;
      when_closed = v.when_closed;
      declared = λ e. end_after-some log fin r.fin (v.declared e);
      ends = EndsAt-end_after log fin r.fin v.ends;
      parts = v.parts;
      clean = v.clean;
    }

    placed :
        Delivers log taken (
          accept capacity
            (record r { fin = end_after log fin r.fin; ack_owed = true })
            off
            bytes
            (off + length bytes))
        × ((accept capacity
              (record r { fin = end_after log fin r.fin; ack_owed = true })
              off
              bytes
              (off + length bytes)).fin
            ≡ end_after log fin r.fin)
    placed = accept-Delivers log short capacity taken _ off bytes marked s.piece

pub consume_same :
    (r : Receiver) (n : ℕ)
    → ((consume r n).next ≡ r.next)
      × ((consume r n).ready ≡ drop (min n (length r.ready)) r.ready)
      × ((consume r n).fin ≡ r.fin)
      × ((consume r n).finished ≡ r.finished)
      × ((consume r n).held ≡ r.held)
      × ((consume r n).spare ≡ r.spare)
unfolding consume
consume_same r n = ground arith

-- After a read the bytes taken and those still to read are the front of the stream, if they were
-- before, and nothing else of what the receiver promises changes.
pub consume-Delivers :
    (log taken : List ℕ) (r : Receiver) (n : ℕ)
    → Delivers log taken r
    → Delivers log (taken ++ take n r.ready) (consume r n)
consume-Delivers log taken r n v =
    let w = consume_same r n in
    record {
      same =
          rw (w.1, w.0)
            (append_assoc taken (take n r.ready) _
              ∙ ap (λ xs. taken ++ xs) (take-append-drop-min n r.ready)
              ∙ v.same);
      while_open = λ e. rw w.0 (v.while_open (sym w.3 ∙ e));
      when_closed = λ e. rw w.0 (v.when_closed (sym w.3 ∙ e));
      declared = λ e. w.2 ∙ v.declared (sym w.3 ∙ e);
      ends = rw w.2 v.ends;
      parts = rw w.4 v.parts;
      clean = rw w.5 v.clean;
    }
