-- ===== src/Forward/Recv/Answer.antt =====
-- crates/forward/src/recv.rs: the acknowledgement that a receiver owes, `poll_ack`.
pub mod Merge
pub mod Runs
use braid.Prelude.{
  ℕ, ◌-◌, max, false, not, ◌&&◌, Option, none, some, List, [], ◌∷◌, ◌++◌, map, ltb, leb, ◌==◌,
  if◌then◌else◌, length, u32_max, saturating_add,
}
use braid.Forward.Wire.{max_ack_runs, SackRun, sack_runs, Ack}
use braid.Forward.Recv.{Held, Receiver, window}
use mathlib.Core.Option

-- One merged run appended; one that does not fit the relative form, or is empty, is dropped.
pub push_run : List SackRun × ℕ → ℕ × ℕ → List SackRun × ℕ
push_run (runs, cursor) (start, end) =
    let gap = start - cursor in
    let len = end - start in
    if leb gap u32_max && leb len u32_max && not (gap == 0) && not (len == 0)
    then (runs ++ (record { gap = gap; len = len } ∷ []), end)
    else (runs, cursor)

-- The accumulator of `held_runs`: the runs so far, their cursor, and the run that is still open.
pub record Walk : Type 0 where
  pub runs : List SackRun
  pub cursor : ℕ
  pub open_run : Option (ℕ × ℕ)

pub close_run : Walk → ℕ × ℕ → Walk
close_run w run =
    let (runs', cursor') = push_run (w.runs, w.cursor) run in
    record w { runs = runs'; cursor = cursor' }

pub extend_open : Walk → Option (ℕ × ℕ) → ℕ → ℕ → Walk
extend_open w none off end = record w { open_run = some (off, end) }
extend_open w (some (start, seen)) off end =
    if leb off seen
    then record w { open_run = some (start, max seen end) }
    else record (close_run w (start, seen)) { open_run = some (off, end) }

pub extend_run : Walk → ℕ → ℕ → Walk
extend_run w off end = extend_open w w.open_run off end

pub merge : Held → Walk → Walk
merge [] w = w
merge ((off, h) ∷ rest) w =
    let w' = extend_run w off (saturating_add off (length h)) in
    let later = merge rest w' in if length w'.runs == max_ack_runs then w' else later

pub close_last : Walk → Option (ℕ × ℕ) → Walk
close_last w none = w
close_last w (some run) = if ltb (length w.runs) max_ack_runs then close_run w run else w

pub last_run : Walk → Walk
last_run w = close_last w w.open_run

-- `from_slice` refuses too many runs, and the `expect` behind it panics: `none` is that panic.
pub held_runs : Receiver → Option (List SackRun)
held_runs r =
    sack_runs
      (last_run (merge r.held (record { runs = []; cursor = r.next; open_run = none }))).runs

pub answer : Receiver → List SackRun → Ack
answer r runs = record { off = r.next; window = window r; held = runs }

-- The outer `none` is the panic of `held_runs`.
pub poll_ack : Receiver → Option (Receiver × Option Ack)
poll_ack r =
    let r' = record r { ack_owed = false } in
    if r.ack_owed
    then Option.map (λ runs. (r', some (answer r' runs))) (held_runs r')
    else some (r, none)
