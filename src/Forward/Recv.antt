-- ===== src/Forward/Recv.antt =====
-- crates/forward/src/recv.rs: the half that owes a socket.
-- `held` is a BTreeMap, here the list of its entries in ascending order of the offset. `spare` is a
-- stack, newest first. The scratch vector `runs` is
-- cleared before each use and is not state here.
use braid.Prelude.{
  ℕ, ◌+◌, ◌-◌, ◌/◌, min, Bool, true, false, not, ◌&&◌, ◌||◌, Option, none, some, List, [], ◌∷◌,
  ◌++◌, ltb, leb, ◌==◌, if◌then◌else◌, is_some_and, length, drop, u32_max, saturating_add,
}
use braid.Forward.Wire.{
  forward_window, max_held_segments, max_forward_chunk, chunk_window, Verdict, accepted,
  contradiction,
}
pub mod Pieces
pub mod Drain
pub mod Deliver
pub mod Advance
pub mod Order
pub mod Memory
pub mod Answer
mod Tests

abbrev pub spare_held : ℕ
spare_held = 4

abbrev pub spare_held_bytes : ℕ
spare_held_bytes = max_forward_chunk / 4

abbrev pub Held : Type 0
Held = List (ℕ × List ℕ)

pub record Receiver : Type 0 where
  pub next : ℕ
  pub ready : List ℕ
  pub held : Held
  pub held_bytes : ℕ
  pub spare : List (List ℕ)
  pub fin : Option ℕ
  pub finished : Bool
  pub ack_owed : Bool

pub fresh : Receiver
fresh = record {
  next = 0;
  ready = [];
  held = [];
  held_bytes = 0;
  spare = [];
  fin = none;
  finished = false;
  ack_owed = false;
}

pub window : Receiver → ℕ
window r = min (forward_window - saturating_add (length r.ready) r.held_bytes) u32_max

pub admits : Receiver → ℕ → Bool
admits r len = leb (length r.ready + len) forward_window

pub consume : Receiver → ℕ → Receiver
consume r n =
    let taken = min n (length r.ready) in
    let r' = record r { ready = drop taken r.ready } in
    if ltb (window r) chunk_window && leb chunk_window (window r')
    then record r' { ack_owed = true }
    else r'

-- The map's operations: `get`, and `insert` in order.
pub find : ℕ → Held → Option (List ℕ)
find off [] = none
find off ((o, h) ∷ rest) = if o == off then some h else find off rest

pub insert : ℕ → List ℕ → Held → Held
insert off b [] = (off, b) ∷ []
insert off b ((o, h) ∷ rest) =
    if ltb off o
    then (off, b) ∷ (o, h) ∷ rest
    else if off == o
    then (off, b) ∷ rest
    else (o, h) ∷ insert off b rest

pub held_past : Held → ℕ → Bool
held_past [] end = false
held_past ((off, h) ∷ rest) end = ltb end (saturating_add off (length h)) || held_past rest end

-- `spare.pop().unwrap_or_default()`, with the spares left.
pub pop_spare : List (List ℕ) → List ℕ × List (List ℕ)
pop_spare [] = ([], [])
pop_spare (b ∷ bs) = (b, bs)

-- `or_insert_with`: the entry that is there, or one made from a spare buffer.
pub or_spare : Option (List ℕ) → List (List ℕ) → List ℕ × List (List ℕ)
or_spare (some h) spare = (h, spare)
or_spare none spare = pop_spare spare

pub entry : Receiver → ℕ → List ℕ × List (List ℕ)
entry r off = or_spare (find off r.held) r.spare

pub store : Receiver → ℕ → List ℕ → Receiver
store r off bytes =
    let (e, spare') = entry r off in
    if ltb (length e) (length bytes)
    then record r {
      held = insert off bytes r.held;
      held_bytes = r.held_bytes + length bytes - length e;
      spare = spare';
    }
    else record r { held = insert off e r.held; spare = spare' }

pub refuses : Receiver → ℕ → List ℕ → Bool
refuses r off bytes =
    length bytes == 0
    || leb max_held_segments (length r.held)
    || leb (saturating_add r.next forward_window) off
    || ltb forward_window (length r.ready + r.held_bytes + length bytes)

pub hold : Receiver → ℕ → List ℕ → Receiver
hold r off bytes = if refuses r off bytes then r else store r off bytes

pub settle_end : Receiver → Receiver
settle_end r =
    if not r.finished && is_some_and r.fin (λ e. e == r.next)
    then record r { next = r.next + 1; finished = true }
    else r

-- The check of a segment against the declared end; `none` is the contradiction.
pub declare : Receiver → ℕ → Bool → Option Receiver
declare r end fin = elim r.fin [
  | some known ↦ if ltb known end || (fin && not (end == known)) then none else some r
  | none ↦
      if fin
      then if ltb end r.next || held_past r.held end
        then none
        else some (record r { fin = some end })
      else some r
]

-- `capacity r b` is what the allocator has reserved for the buffer `b`, which its bytes do not say.
module _ (capacity : Receiver → List ℕ → ℕ) where
  pub recycle : Receiver → List ℕ → Receiver
  recycle r buffer =
      if ltb (length r.spare) spare_held && leb (capacity r buffer) spare_held_bytes
      then record r { spare = [] ∷ r.spare }
      else r

  -- One round of the loop of `drain_held`, the entry already taken out of the map.
  pub place : Receiver → ℕ → List ℕ → Receiver
  place r off h =
      let end = saturating_add off (length h) in
      let r' = record r { held_bytes = r.held_bytes - length h } in
      if ltb r.next end
      then recycle (record r' { ready = r.ready ++ drop (r.next - off) h; next = end }) h
      else recycle r' h

  pub drain : Held → Receiver → Receiver
  drain [] r = record r { held = [] }
  drain ((off, h) ∷ rest) r =
      let later = drain rest (place r off h) in
      if ltb r.next off then record r { held = (off, h) ∷ rest } else later

  pub drain_held : Receiver → Receiver
  drain_held r = drain r.held r

  pub place_fresh : Receiver → List ℕ → ℕ → Receiver
  place_fresh r bs end =
      if admits r (length bs)
      then drain_held (record r { ready = r.ready ++ bs; next = end })
      else r

  pub accept : Receiver → ℕ → List ℕ → ℕ → Receiver
  accept r off bytes end =
      if ltb r.next end
      then (if ltb r.next off
          then hold r off bytes
          else place_fresh r (drop (r.next - off) bytes) end)
      else r

  -- What `on_data` does once the end is checked.
  pub receive : Option Receiver → ℕ → List ℕ → ℕ → Receiver × Verdict → Receiver × Verdict
  receive none off bytes end refused = refused
  receive (some r) off bytes end refused =
      (settle_end (accept (record r { ack_owed = true }) off bytes end), accepted)

  pub on_data : Receiver → ℕ → Bool → List ℕ → Receiver × Verdict
  on_data r off fin bytes =
      let end = saturating_add off (length bytes) in
      receive (declare r end fin) off bytes end (r, contradiction)
