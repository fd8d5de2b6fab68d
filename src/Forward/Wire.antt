-- ===== src/Forward/Wire.antt =====
-- What crosses the link for one forwarded stream: the constants and values of
-- crates/forward/src/lib.rs, and the acknowledged runs of crates/proto/src/lib.rs.
-- Bytes are only moved, never computed with, so a byte is any number.
use braid.Prelude.{ℕ, ◌*◌, Bool, Option, List, [], ◌∷◌, leb, then_some, length, saturating_add}

abbrev pub forward_window : ℕ
forward_window = 256 * 1024

abbrev pub max_held_segments : ℕ
max_held_segments = 256

abbrev pub max_forward_chunk : ℕ
max_forward_chunk = 32 * 1024

abbrev pub chunk_window : ℕ
chunk_window = 32 * 1024

abbrev pub initial_window : ℕ
initial_window = chunk_window

abbrev pub max_ack_runs : ℕ
max_ack_runs = 32

pub record SackRun : Type 0 where
  pub gap : ℕ
  pub len : ℕ

-- `SackRuns::from_slice`: the runs, if they are not too many.
unfoldable pub sack_runs : List SackRun → Option (List SackRun)
sack_runs runs = then_some (leb (length runs) max_ack_runs) runs

-- `SackRuns::absolute`: the runs as `[start, end)` ranges above `cursor`.
unfoldable pub absolute : ℕ → List SackRun → List (ℕ × ℕ)
absolute cursor [] = []
absolute cursor (run ∷ runs) =
    let start = saturating_add cursor run.gap in
    let end = saturating_add start run.len in (start, end) ∷ absolute end runs

pub record Segment : Type 0 where
  pub off : ℕ
  pub fin : Bool
  pub len : ℕ

pub record Ack : Type 0 where
  pub off : ℕ
  pub window : ℕ
  pub held : List SackRun

-- `Result<(), Contradiction>`.
pub data Verdict : Type 0 where
  accepted contradiction : Verdict
