-- ===== src/Prelude/Words.antt =====
-- Machine words as native numbers. The release profile keeps `overflow-checks = true`
-- (Cargo.toml), so a plain `+`, `*` or `-` of the program is exact or panics; what saturates in
-- the source saturates here. On a 64-bit target `usize` and `u64` have one range.
use Prim.Native.Nat.{ℕ, ◌+◌, ◌-◌, ◌^◌, min, max}

abbrev pub u32_max : ℕ
u32_max = 2 ^ 32 - 1

abbrev pub u64_max : ℕ
u64_max = 2 ^ 64 - 1

abbrev pub usize_max : ℕ
usize_max = u64_max

-- `u64::saturating_add`. `saturating_sub` is `-` of ℕ.
abbrev pub saturating_add : ℕ → ℕ → ℕ
saturating_add a b = min (a + b) u64_max

-- `Ord::clamp`.
abbrev pub clamp : ℕ → ℕ → ℕ → ℕ
clamp x lo hi = min (max x lo) hi
