-- ===== src/Forward/Send/Inv.antt =====
-- crates/forward/src/send.rs: the invariant of the sender, against all that was written to it.
use braid.Prelude.{
  ℕ, ◌+◌, ◌-◌, ◌≤◌, ◌<◌, min, ◌≡◌, refl, sym, ap, ◌∙◌, inl, inr, Option, none, some, List, [], ◌∷◌,
  ◌++◌, arith, ltb, if◌then◌else◌, Bool-cases, is_some, is_none, length, take, drop, length-append,
  length-take, length-drop,
}
use braid.Prelude.Slices.{drop-append_le, drop-drop}
use braid.Forward.Wire.{forward_window, SackRun, absolute, Segment}
use braid.Forward.Piece.{EndsAt}
use braid.Forward.Send.{
  Ranges, Sender, fresh, end, writable, write, finish, transmitted, advance, all_sent, settle_ack,
  take_ranges, on_ack,
}

-- Ranges that lie strictly above `base`, are not empty, and end by `next`.
abbrev pub Above : ℕ → ℕ → Ranges → Type 0
Above base next [] = Unit {0}
Above base next ((start, stop) ∷ rest) =
    (base < start) × (start < stop) × (stop ≤ next) × Above base next rest

-- `log` is all that was written.
pub record Inv (log : List ℕ) (s : Sender) : Type 0 where
  pub base_in : s.base ≤ length log
  pub buffer : s.buffer ≡ drop s.base log
  pub small : length s.buffer ≤ forward_window
  pub walked : s.base ≤ s.cursor
  pub sent : s.cursor ≤ s.next
  pub written : s.next ≤ length log
  pub ends : EndsAt log s.fin

pub fresh-Inv : Inv [] fresh
unfolding fresh
fresh-Inv = record {
  base_in = omega arith;
  buffer = refl;
  small = omega arith;
  walked = omega arith;
  sent = omega arith;
  written = omega arith;
  ends = tt;
}

pub end-Inv : (log : List ℕ) (s : Sender) → Inv log s → end s ≡ length log
end-Inv log s v = omega (arith, ap length v.buffer, length-drop s.base log, v.base_in)

write_ends :
    (log bytes : List ℕ) (o : Option ℕ) (n room : ℕ)
    → EndsAt log o
    → n ≡ min (if is_some o then 0 else room) (length bytes)
    → EndsAt (log ++ take n bytes) o
write_ends log bytes none n room e h = tt
write_ends log bytes (some x) n room e h =
    omega (arith, length-append log (take n bytes), length-take n bytes)

-- Writing keeps the invariant of the sender, with the bytes that it took put behind all that was
-- written before.
pub write-Inv :
    (log : List ℕ) (s : Sender) (bytes : List ℕ) (now : ℕ)
    → Inv log s
    → Inv (log ++ take (write s bytes now).1 bytes) (write s bytes now).0
unfolding write writable
write-Inv log s bytes now v =
    let n = min (writable s) (length bytes) in
    let room : writable s ≤ forward_window - length s.buffer = ground arith in
    let grown = length-append log (take n bytes) in
    record {
      base_in = omega (arith, grown);
      buffer =
          ap (λ xs. xs ++ take n bytes) v.buffer
          ∙ sym (drop-append_le s.base log (take n bytes) v.base_in);
      small = omega (arith, room, length-append s.buffer (take n bytes), length-take n bytes);
      walked = v.walked;
      sent = v.sent;
      written = omega (arith, grown);
      ends = write_ends log bytes s.fin n (forward_window - length s.buffer) v.ends refl;
    }

pub finish-Inv : (log : List ℕ) (s : Sender) → Inv log s → Inv log (finish s)
unfolding finish
finish-Inv log s v = elim (Bool-cases (is_none s.fin)) [
  | inl open_end ↦ rw open_end (record {
    base_in = v.base_in;
    buffer = v.buffer;
    small = v.small;
    walked = v.walked;
    sent = v.sent;
    written = v.written;
    ends = end-Inv log s v;
  })
  | inr closed ↦ rw closed v
]

-- A send of bytes that were written keeps the invariant.
pub transmitted-Inv :
    (log : List ℕ) (s : Sender) (segment : Segment) (now : ℕ)
    → Inv log s
    → segment.off + segment.len ≤ length log
    → Inv log (transmitted s segment now)
unfolding transmitted
transmitted-Inv log s segment now v h = record {
  base_in = v.base_in;
  buffer = v.buffer;
  small = v.small;
  walked = omega (arith, v.walked);
  sent = omega (arith, v.sent);
  written = omega (arith, v.written);
  ends = v.ends;
}

-- Retiring what is acknowledged keeps every other byte, whatever offset the peer names.
pub advance-Inv : (log : List ℕ) (s : Sender) (off : ℕ) → Inv log s → Inv log (advance s off)
unfolding advance
advance-Inv log s off v = elim (Bool-cases (ltb s.base off)) [
  | inl more ↦ rw more (record {
    base_in = omega (arith, end-Inv log s v);
    buffer =
        ap (drop (min off (end s) - s.base)) v.buffer
        ∙ drop-drop s.base (min off (end s) - s.base) _ log refl;
    small = omega (arith, length-drop (min off (end s) - s.base) s.buffer);
    walked = omega arith;
    sent = omega (arith, v.sent);
    written = omega (arith, end-Inv log s v);
    ends = v.ends;
  })
  | inr old ↦ rw old v
]

settle_ack-Inv :
    (log : List ℕ) (s : Sender) (off window now : ℕ)
    → Inv log s
    → Inv log (settle_ack s off window now)
unfolding settle_ack
settle_ack-Inv log s off window now v = ground arith

-- The invariant says nothing of the ranges that the peer holds.
Inv-held : (log : List ℕ) (s : Sender) (rs : Ranges) → Inv log s → Inv log (record s { held = rs })
Inv-held log s rs v = record {
  base_in = v.base_in;
  buffer = v.buffer;
  small = v.small;
  walked = v.walked;
  sent = v.sent;
  written = v.written;
  ends = v.ends;
}

take_ranges-Inv :
    (log : List ℕ) (s : Sender) (rs : Ranges) (off window now : ℕ)
    → Inv log s
    → Inv log (take_ranges s rs off window now).0
unfolding take_ranges
take_ranges-Inv log s rs off window now v = elim (Bool-cases (all_sent rs s.next)) [
  | inl good ↦
      rw good (settle_ack-Inv log (record s { held = rs }) off window now (Inv-held log s rs v))
  | inr bad ↦ rw bad (Inv-held log s [] v)
]

-- No acknowledgement, lawful or not, breaks the invariant of the sender: what it buffers is still
-- all that was written from `base` on, and what it has confirmed, walked and sent stays in that
-- order and within what was written.
pub on_ack-Inv :
    (log : List ℕ) (s : Sender) (off window : ℕ) (held : List SackRun) (now : ℕ)
    → Inv log s
    → Inv log (on_ack s off window held now).0
unfolding on_ack
on_ack-Inv log s off window held now v = elim (Bool-cases (ltb off s.base)) [
  | inl stale ↦ rw stale v
  | inr good ↦ rw good (
      take_ranges-Inv log (advance s off) (absolute off held) off window now
        (advance-Inv log s off v))
]
