-- ===== src/Proto/Values.antt =====
-- The values that the messages of crates/proto/src/lib.rs carry. A fixed array is its bytes, and
-- a wrapped integer is the number inside; what their Rust types keep of them are the predicates.
use braid.Prelude.{
  ℕ, ◌+◌, ◌≤◌, ◌<◌, ◌^◌, ◌≡◌, Bool, true, false, not, ◌||◌, ◌&&◌, Option, none, some, leb, ltb,
  ◌==◌, if◌then◌else◌, length, min, u64_max, Bytes,
}

-- What a word, a non-zero word and an array of bytes keep.
abbrev pub IsU16 : ℕ → Type 0
IsU16 x = x < 2 ^ 16

abbrev pub IsU32 : ℕ → Type 0
IsU32 x = x < 2 ^ 32

abbrev pub IsU64 : ℕ → Type 0
IsU64 x = x < 2 ^ 64

abbrev pub IsNonZero32 : ℕ → Type 0
IsNonZero32 x = (1 ≤ x) × (x < 2 ^ 32)

abbrev pub IsNonZero64 : ℕ → Type 0
IsNonZero64 x = (1 ≤ x) × (x < 2 ^ 64)

abbrev pub IsArray : ℕ → Bytes → Type 0
IsArray n bytes = length bytes ≡ n

-- `NonZero::new`, with `CmdSeq::from_u64`, `Generation::from_u64`, `ScreenVersion::from_u64` and
-- `StreamId::from_u32`, which wrap it.
unfoldable pub non_zero : ℕ → Option ℕ
non_zero x = if x == 0 then none else some x

-- `next` of `CmdSeq`, `Generation` and `ScreenVersion`: `NonZeroU64::saturating_add`.
unfoldable pub next_u64 : ℕ → ℕ
next_u64 x = min (x + 1) u64_max

pub record GridSize : Type 0 where
  pub cols : ℕ
  pub rows : ℕ

abbrev pub max_cols : ℕ
max_cols = 1024

abbrev pub max_rows : ℕ
max_rows = 512

-- `(1..=max).contains(&x)`.
abbrev pub in_range : ℕ → ℕ → Bool
in_range max x = leb 1 x && leb x max

unfoldable pub grid_size : ℕ → ℕ → Option GridSize
grid_size cols rows =
    if not (in_range max_cols cols) || not (in_range max_rows rows)
    then none
    else some (record { cols = cols; rows = rows })

abbrev pub IsGridSize : GridSize → Type 0
IsGridSize g = (1 ≤ g.cols) × (g.cols ≤ max_cols) × (1 ≤ g.rows) × (g.rows ≤ max_rows)

pub record VersionRange : Type 0 where
  pub oldest : ℕ
  pub newest : ℕ

unfoldable pub version_range : ℕ → ℕ → Option VersionRange
version_range oldest newest =
    if (oldest == 0) || ltb newest oldest
    then none
    else some (record { oldest = oldest; newest = newest })

abbrev pub IsVersionRange : VersionRange → Type 0
IsVersionRange r = (1 ≤ r.oldest) × (r.oldest ≤ r.newest) × (r.newest < 2 ^ 16)

abbrev pub protocol_version : ℕ
protocol_version = 17

abbrev pub min_protocol_version : ℕ
min_protocol_version = 16

abbrev pub management_version : ℕ
management_version = 14

-- `VersionRange::LOCAL`.
abbrev pub local_range : VersionRange
local_range = record { oldest = min_protocol_version; newest = protocol_version }

abbrev pub capability_bytes : ℕ
capability_bytes = 32

pub record DatagramOffer : Type 0 where
  pub ip : Bytes
  pub port : ℕ
  pub cid : Bytes
  pub secret : Bytes

abbrev pub IsDatagramOffer : DatagramOffer → Type 0
IsDatagramOffer o = IsArray 16 o.ip × IsU16 o.port × IsArray 8 o.cid × IsArray 32 o.secret

pub record ConfirmedOutput : Type 0 where
  pub generation : ℕ
  pub next_off : ℕ

pub record ResumeRequest : Type 0 where
  pub session_id : Bytes
  pub capability : Bytes
  pub confirmed_output : ConfirmedOutput
  pub client : Bytes

abbrev pub IsResumeRequest : ResumeRequest → Type 0
IsResumeRequest r =
    IsArray 16 r.session_id
    × IsArray capability_bytes r.capability
    × IsNonZero64 r.confirmed_output.generation
    × IsU64 r.confirmed_output.next_off
    × IsArray 16 r.client

pub data InputCue : Type 0 where
  opaque : InputCue
  echoing : (room : ℕ) → InputCue

unfoldable pub IsInputCue : InputCue → Type 0
IsInputCue opaque = Unit
IsInputCue (echoing room) = IsU16 room

pub data DetachReason : Type 0 where
  requested replaced : DetachReason

pub data ForwardResetReason : Type 0 where
  refused unreachable closed limit internal : ForwardResetReason

pub data RejectReason : Type 0 where
  version_mismatch : (server client : VersionRange) → RejectReason
  unknown_session sequence_gap input_backlog internal_failure : RejectReason
  too_many_sessions too_many_attachments : RejectReason

unfoldable pub is_terminal : RejectReason → Bool
is_terminal (version_mismatch server client) = true
is_terminal unknown_session = true
is_terminal too_many_sessions = true
is_terminal too_many_attachments = true
is_terminal sequence_gap = false
is_terminal input_backlog = false
is_terminal internal_failure = false

unfoldable pub IsRejectReason : RejectReason → Type 0
IsRejectReason (version_mismatch server client) = IsVersionRange server × IsVersionRange client
IsRejectReason r = Unit

-- An `i32`: its sign is its constructor's.
pub data Signed : Type 0 where
  non_negative : ℕ → Signed
  minus_suc : ℕ → Signed

unfoldable pub IsI32 : Signed → Type 0
IsI32 (non_negative x) = x < 2 ^ 31
IsI32 (minus_suc x) = x < 2 ^ 31
