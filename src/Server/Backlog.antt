-- ===== src/Server/Backlog.antt =====
-- crates/server/src/backlog.rs: recent output, kept so that a client can be given what it missed.
pub mod Slots
pub mod Log
pub mod Refine
pub mod Replay
mod Tests
use braid.Prelude.{
  ℕ, zero, suc, ◌+◌, ◌-◌, ◌*◌, ◌%◌, min, max, ◌||◌, Option, none, some, List, [], ◌∷◌, ◌++◌, ltb,
  leb, ◌==◌, if◌then◌else◌, then_some, length, take, drop, u64_max, usize_max, saturating_add,
}

abbrev pub floor_size : ℕ
floor_size = 16 * 1024

pub record BacklogRing : Type 0 where
  pub buf : List ℕ
  pub capacity : ℕ
  pub base : ℕ
  pub len : ℕ
  pub head : ℕ

pub fresh : ℕ → BacklogRing
fresh capacity = record { buf = []; capacity = capacity; base = 0; len = 0; head = 0 }

-- The loop of `grow_for`: `usize::saturating_mul` by two until there is room. 64 rounds are enough,
-- as `Log.doubled-enough` shows.
pub doubled : ℕ → ℕ → ℕ → ℕ
doubled zero size needed = size
doubled (suc rounds) size needed =
    let later = doubled rounds (min (size * 2) usize_max) needed in
    if ltb size needed then later else size

pub zeros : ℕ → List ℕ
zeros zero = []
zeros (suc n) = 0 ∷ zeros n

pub slice : List ℕ → ℕ → ℕ → List ℕ
slice buf start n = take n (drop start buf)

-- `copy_from_slice` at an index.
pub copy_at : List ℕ → ℕ → List ℕ → List ℕ
copy_at buf start bytes = take start buf ++ bytes ++ drop (start + length bytes) buf

-- The ring laid out from the start of a longer buffer.
pub regrow : BacklogRing → ℕ → BacklogRing
regrow r size =
    let first = min (length r.buf - r.head) r.len in
    let grown = copy_at (zeros size) 0 (slice r.buf r.head first) in
    record r { buf = copy_at grown first (slice r.buf 0 (r.len - first)); head = 0 }

pub grow_for : BacklogRing → ℕ → BacklogRing
grow_for r extra =
    let needed = min (saturating_add r.len extra) r.capacity in
    if leb needed (length r.buf)
    then r
    else regrow r (min (doubled 64 (max (length r.buf) floor_size) needed) r.capacity)

-- `ByteOff::checked_add`, or where it was.
pub advance : ℕ → ℕ → ℕ
advance base n = if leb (base + n) u64_max then base + n else base

pub evict : BacklogRing → ℕ → BacklogRing
evict r overwrite =
    if ltb 0 overwrite
    then record r { head = (r.head + overwrite) % length r.buf; len = r.len - overwrite }
    else r

-- The bytes copied to `tail` and around the end of the buffer.
pub around : List ℕ → ℕ → List ℕ → List ℕ
around buf tail bytes =
    let first = min (length bytes) (length buf - tail) in
    let buf' = copy_at buf tail (take first bytes) in
    if ltb first (length bytes) then copy_at buf' 0 (drop first bytes) else buf'

-- The bytes behind those that are kept.
pub append_at : BacklogRing → List ℕ → BacklogRing
append_at r bytes = record r {
  buf = around r.buf ((r.head + r.len) % length r.buf) bytes;
  len = r.len + length bytes;
}

-- `push` behind the growth.
pub put : BacklogRing → List ℕ → BacklogRing
put r input =
    let skip = length input - length r.buf in
    let bytes = drop skip input in
    let overwrite = saturating_add r.len (length bytes) - length r.buf in
    let r' = evict r overwrite in
    append_at (record r' { base = advance r'.base (skip + overwrite) }) bytes

pub push : BacklogRing → List ℕ → BacklogRing
push r input =
    if length input == 0
    then r
    else if r.capacity == 0
    then record r { base = advance r.base (length input) }
    else put (grow_for r (length input)) input

pub replay_slices : BacklogRing → ℕ → List ℕ × List ℕ
replay_slices r start =
    let physical = (r.head + start) % length r.buf in
    let first = min (r.len - start) (length r.buf - physical) in
    (slice r.buf physical first, slice r.buf 0 (r.len - start - first))

pub replay_from : BacklogRing → ℕ → Option (List ℕ × List ℕ)
replay_from r off =
    let start = off - r.base in
    if ltb off r.base || ltb r.len start
    then none
    else if length r.buf == 0
    then then_some (ltb 0 r.capacity) ([], [])
    else some (replay_slices r start)
