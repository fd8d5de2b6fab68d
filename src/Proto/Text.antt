-- ===== src/Proto/Text.antt =====
-- Strings on the wire, crates/proto/src/lib.rs and screen.rs: a string is its UTF-8 bytes.
-- `chars` is `str::from_utf8` with the characters it found, by the table of well-formed byte
-- sequences of the Unicode standard.
use braid.Prelude.{
  ℕ, ◌+◌, ◌-◌, ◌*◌, Bool, true, false, not, ◌&&◌, ◌||◌, List, [], ◌∷◌, Option, none, some, leb, ltb,
  ◌==◌, if◌then◌else◌, length, is_some, unwrap_or, Bytes,
}
use braid.Proto.Outcome.{bad_utf8, invalid_field}
use braid.Proto.Cursor.{Decoder, ◌>>=◌, ◌>>◌, pure, reject_if, take_bytes}

abbrev pub within : ℕ → ℕ → ℕ → Bool
within lo hi b = leb lo b && leb b hi

-- Where a scan stands: between characters, in one that still needs `left` bytes, the next of
-- them in a range, or past a byte that no character has there.
pub data Scan : Type 0 where
  between : Scan
  amid : (left low high point : ℕ) → Scan
  broken : Scan

-- The character that a first byte of 128 or more begins.
abbrev pub begun : ℕ → Scan
begun b =
    if within 0xc2 0xdf b
    then amid 1 0x80 0xbf (b - 0xc0)
    else if b == 0xe0
    then amid 2 0xa0 0xbf 0
    else if b == 0xed
    then amid 2 0x80 0x9f 0xd
    else if within 0xe1 0xef b
    then amid 2 0x80 0xbf (b - 0xe0)
    else if b == 0xf0
    then amid 3 0x90 0xbf 0
    else if within 0xf1 0xf3 b
    then amid 3 0x80 0xbf (b - 0xf0)
    else if b == 0xf4
    then amid 3 0x80 0x8f 4
    else broken

abbrev pub grown : ℕ → ℕ → Scan × Option ℕ
grown left point =
    if left == 1 then (between, some point) else (amid (left - 1) 0x80 0xbf point, none)

-- One byte: where the scan stands after it, and the character that it ends.
abbrev pub scan_step : Scan → ℕ → Scan × Option ℕ
scan_step between b = if ltb b 0x80 then (between, some b) else (begun b, none)
scan_step (amid left low high point) b =
    if within low high b then grown left (point * 64 + (b - 0x80)) else (broken, none)
scan_step broken b = (broken, none)

abbrev pub with_char : Option ℕ → Option (List ℕ) → Option (List ℕ)
with_char (some x) (some xs) = some (x ∷ xs)
with_char none xs = xs
with_char (some x) none = none

unfoldable pub chars_from : Scan → Bytes → Option (List ℕ)
chars_from between [] = some []
chars_from (amid left low high point) [] = none
chars_from broken [] = none
chars_from s (b ∷ bs) = let (s', c) = scan_step s b in with_char c (chars_from s' bs)

unfoldable pub chars : Bytes → Option (List ℕ)
chars bs = chars_from between bs

unfoldable pub is_utf8 : Bytes → Bool
is_utf8 bs = is_some (chars bs)

-- `char::is_control`: the characters of Unicode's class Cc.
unfoldable pub is_control : ℕ → Bool
is_control c = ltb c 0x20 || within 0x7f 0x9f c

unfoldable pub any : (ℕ → Bool) → List ℕ → Bool
any p [] = false
any p (x ∷ xs) = p x || any p xs

unfoldable pub all : (ℕ → Bool) → List ℕ → Bool
all p [] = true
all p (x ∷ xs) = p x && all p xs

-- Only strings are asked, so the bytes that are none have no answer of their own.
unfoldable pub has_control : Bytes → Bool
has_control bs = any is_control (unwrap_or (chars bs) [])

unfoldable pub reject_control : Bytes → Decoder (Unit {0})
reject_control bs = reject_if (has_control bs) invalid_field

-- `Cursor::str`.
unfoldable pub str : ℕ → Decoder Bytes
str n = take_bytes n >>= λ s. reject_if (not (is_utf8 s)) bad_utf8 >> pure s

unfoldable pub is_ascii_alphabetic : ℕ → Bool
is_ascii_alphabetic b = within 0x41 0x5a b || within 0x61 0x7a b

unfoldable pub is_ascii_alphanumeric : ℕ → Bool
is_ascii_alphanumeric b = is_ascii_alphabetic b || within 0x30 0x39 b

abbrev pub max_term : ℕ
max_term = 64

-- Beside letters and digits, `-`, `+`, `.` and `_`.
unfoldable pub is_term_byte : ℕ → Bool
is_term_byte b = is_ascii_alphanumeric b || (b == 0x2d) || (b == 0x2b) || (b == 0x2e) || (b == 0x5f)

unfoldable pub valid_term : Bytes → Bool
valid_term [] = false
valid_term (b ∷ bs) = leb (length (b ∷ bs)) max_term && all is_term_byte (b ∷ bs)

unfoldable pub is_name_byte : ℕ → Bool
is_name_byte b = is_ascii_alphanumeric b || (b == 0x5f)

unfoldable pub valid_env_name : Bytes → Bool
valid_env_name [] = false
valid_env_name (b ∷ bs) = (is_ascii_alphabetic b || (b == 0x5f)) && all is_name_byte bs
