-- ===== src/Forward/Send.antt =====
-- crates/forward/src/send.rs: the half that owes bytes.
-- `as_off` and `as_len` convert between `usize` and `u64`, which have one range here.
pub mod Inv
pub mod Duty
pub mod Fill
pub mod Emit
pub mod Sacks
pub mod Progress
pub mod Credit
pub mod Again
pub mod Ends
mod Tests
use braid.Prelude.{
  ℕ, ◌+◌, ◌-◌, min, max, Bool, true, false, not, ◌&&◌, ◌||◌, Option, none, some, List, [], ◌∷◌,
  ◌++◌, ltb, leb, ◌==◌, if◌then◌else◌, is_some, is_none, is_some_and, map_or, then_some, length,
  take, drop, saturating_add,
}
use braid.Forward.Wire.{
  forward_window, max_forward_chunk, initial_window, SackRun, absolute, Segment, Verdict, accepted,
  contradiction,
}
use braid.Forward.Timer

abbrev pub Ranges : Type 0
Ranges = List (ℕ × ℕ)

pub record Sender : Type 0 where
  pub base : ℕ
  pub buffer : List ℕ
  pub next : ℕ
  pub cursor : ℕ
  pub fin : Option ℕ
  pub fin_sent : Bool
  pub fin_acked : Bool
  pub window : ℕ
  pub held : Ranges
  pub timer : Timer.Timer

pub data Owed : Type 0 where
  repair : (off len : ℕ) → Owed
  fresh_bytes : (off len : ℕ) → Owed
  end_mark : (off : ℕ) → Owed
  probe : (off : ℕ) → Owed
  nothing : Owed

unfoldable pub fresh : Sender
fresh = record {
  base = 0;
  buffer = [];
  next = 0;
  cursor = 0;
  fin = none;
  fin_sent = false;
  fin_acked = false;
  window = initial_window;
  held = [];
  timer = Timer.fresh;
}

abbrev pub end : Sender → ℕ
end s = s.base + length s.buffer

unfoldable pub writable : Sender → ℕ
writable s = if is_some s.fin then 0 else forward_window - length s.buffer

-- The new sender, and how many of the bytes it took.
unfoldable pub write : Sender → List ℕ → ℕ → Sender × ℕ
write s bytes now =
    let taken = min (writable s) (length bytes) in
    (
      record s {
        buffer = s.buffer ++ take taken bytes;
        timer = if ltb 0 taken then Timer.arm s.timer now else s.timer;
      },
      taken,
    )

unfoldable pub finish : Sender → Sender
finish s = if is_none s.fin then record s { fin = some (end s) } else s

unfoldable pub unheld : Ranges → ℕ → ℕ
unheld [] off = off
unheld ((start, stop) ∷ rest) off =
    unheld rest (if leb start off && ltb off stop then stop else off)

unfoldable pub next_held : Ranges → ℕ → Option ℕ
next_held [] off = none
next_held ((start, stop) ∷ rest) off = if ltb off start then some start else next_held rest off

pub awaiting_ack : Sender → Bool
awaiting_ack s = ltb s.base (end s) || (is_some s.fin && not s.fin_acked)

pub is_done : Sender → Bool
is_done s = is_some s.fin && s.fin_acked

pub deadline : Sender → ℕ → Option ℕ
deadline s now = Timer.remaining s.timer now

abbrev pub is_at : Option ℕ → ℕ → Bool
is_at o n = is_some_and o (λ e. e == n)

-- `base + window`, what the peer has granted.
abbrev pub granted : Sender → ℕ
granted s = saturating_add s.base s.window

-- The part of `owed` behind the repair.
unfoldable pub owed_fresh : Sender → Bool → ℕ → Owed
owed_fresh s woken budget =
    let limit = min (end s) (granted s) in
    if ltb s.next limit
    then fresh_bytes s.next (min (limit - s.next) budget)
    else if is_at s.fin (end s) && s.next == end s && not s.fin_sent && not s.fin_acked
    then end_mark (end s)
    else if woken && s.next == s.base && ltb s.next (end s)
    then probe s.base
    else nothing

unfoldable pub owed : Sender → Bool → ℕ → Owed
owed s woken budget =
    let off = unheld s.held s.cursor in
    let stop = min (map_or (next_held s.held off) s.next (λ start. start)) s.next in
    if ltb s.cursor s.next && ltb off s.next
    then repair off (min (stop - off) budget)
    else owed_fresh s woken budget

-- The retransmission timer went off.
unfoldable pub woken_up : Sender → Sender
woken_up s = record s { cursor = s.base; fin_sent = false; timer = Timer.expired s.timer }

unfoldable pub rouse : Sender → Bool → Sender
rouse s woken = if woken then woken_up s else s

-- What `poll_transmit` hands out: the segment, and the bytes that it appended to `out`.
abbrev pub Sent : Type 0
Sent = Option (Segment × List ℕ)

-- `wrap s` is where the queue's storage wraps: how many bytes stand in the first of its two slices.
module _ (wrap : Sender → ℕ) where
  unfoldable pub cut : Sender → ℕ → ℕ → List ℕ
  cut s off len =
      let start = off - s.base in
      let front = take (wrap s) s.buffer in
      let back = drop (wrap s) s.buffer in
      if ltb start (length front)
      then take (min len (length front - start)) (drop start front)
      else take (min len (length back - (start - length front))) (drop (start - length front) back)

  unfoldable pub fill : Sender → ℕ → ℕ → Sent
  fill s off len =
      let bytes = cut s off len in
      let taken = length bytes in
      let fin = is_at s.fin (off + taken) in
      then_some (ltb 0 taken || fin) (record { off = off; fin = fin; len = taken }, bytes)

  unfoldable pub fill_owed : Sender → Owed → Sent
  fill_owed s (repair off len) = fill s off len
  fill_owed s (fresh_bytes off len) = fill s off len
  fill_owed s (end_mark off) = fill s off 0
  fill_owed s (probe off) = fill s off 1
  fill_owed s nothing = none

  unfoldable pub poll_transmit : Sender → ℕ → ℕ → Sender × Sent
  poll_transmit s now budget =
      let budget' = min budget max_forward_chunk in
      let woken = Timer.due s.timer now in
      let s' = rouse s woken in
      if budget' == 0 then (s, none) else (s', fill_owed s' (owed s' woken budget'))

pub transmitted : Sender → Segment → ℕ → Sender
transmitted s segment now =
    let stop = segment.off + segment.len in
    record s {
      next = max s.next stop;
      cursor = max s.cursor stop;
      fin_sent = if segment.fin then true else s.fin_sent;
      timer = Timer.transmitted s.timer (then_some (ltb s.next stop) stop) now;
    }

-- The part of `on_ack` that retires bytes.
pub advance : Sender → ℕ → Sender
advance s off =
    let n = min off (end s) - s.base in
    let base' = s.base + n in
    let next' = max s.next base' in
    if ltb s.base off
    then record s {
      base = base';
      buffer = drop n s.buffer;
      next = next';
      cursor = max s.cursor base';
      fin_acked = if is_some_and s.fin (λ fin. ltb fin off) then true else s.fin_acked;
    }
    else s

-- Whether no range names a byte that was never sent: the loop of `on_ack` stops at the first that
-- does, and leaves no range behind.
pub all_sent : Ranges → ℕ → Bool
all_sent [] next = true
all_sent ((start, stop) ∷ rest) next = leb stop next && all_sent rest next

abbrev pub is_stalled : Timer.Progress → Bool
is_stalled Timer.Progress.stalled = true
is_stalled p = false

-- The part of `on_ack` behind the ranges: the window, the timer, the fast retransmit.
pub settle_ack : Sender → ℕ → ℕ → ℕ → Sender
settle_ack s off window now =
    let awaiting = awaiting_ack s in
    let (timer', p) = Timer.acknowledged s.timer off now awaiting in
    let s' = record s { window = window; timer = timer' } in
    if is_stalled p && ltb 0 window && awaiting
    then record s' { cursor = s.base; fin_sent = false }
    else s'

pub take_ranges : Sender → Ranges → ℕ → ℕ → ℕ → Sender × Verdict
take_ranges s ranges off window now =
    if all_sent ranges s.next
    then (settle_ack (record s { held = ranges }) off window now, accepted)
    else (record s { held = [] }, contradiction)

pub on_ack : Sender → ℕ → ℕ → List SackRun → ℕ → Sender × Verdict
on_ack s off window held now =
    if ltb off s.base
    then (s, accepted)
    else take_ranges (advance s off) (absolute off held) off window now
