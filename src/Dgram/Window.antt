-- ===== src/Dgram/Window.antt =====
-- crates/dgram/src/window.rs: which packet numbers have been accepted, as 256 bits behind the
-- newest of them. A word is a number below 2^64, and a bit of it is read by division.
pub mod Digits
pub mod Slide
pub mod Refine
pub mod Ack
pub mod Tests
use braid.Prelude.{
  ℕ, zero, suc, ◌-◌, ◌*◌, ◌/◌, ◌%◌, ◌^◌, Bool, not, Option, none, some, List, [], ◌∷◌, ltb, leb,
  ◌==◌, if◌then◌else◌,
}
use Prim.Native.Nat.{bit_or}

abbrev pub width : ℕ
width = 256

abbrev pub word_bits : ℕ
word_bits = 64

abbrev pub words : ℕ
words = width / word_bits

pub data Admission : Type 0 where
  fresh replay too_old : Admission

pub record ReplayWindow : Type 0 where
  pub top : ℕ
  pub seen : List ℕ

abbrev pub no_words : List ℕ
no_words = 0 ∷ 0 ∷ 0 ∷ 0 ∷ []

abbrev pub new_window : ReplayWindow
new_window = record { top = 0; seen = no_words }

-- An index into the words is always in range.
unfoldable pub word_at : ℕ → List ℕ → ℕ
word_at i [] = 0
word_at zero (w ∷ ws) = w
word_at (suc i) (w ∷ ws) = word_at i ws

unfoldable pub or_word : ℕ → ℕ → List ℕ → List ℕ
or_word i mask [] = []
or_word zero mask (w ∷ ws) = bit_or w mask ∷ ws
or_word (suc i) mask (w ∷ ws) = w ∷ or_word i mask ws

unfoldable pub position : ℕ → ℕ × ℕ
position behind = (behind / word_bits, 2 ^ (behind % word_bits))

unfoldable pub set : ℕ → List ℕ → List ℕ
set behind seen = let (word, mask) = position behind in or_word word mask seen

unfoldable pub get : ℕ → List ℕ → Bool
get behind seen = let (word, mask) = position behind in word_at word seen / mask % 2 == 1

-- The loop goes down, so it reads only words that it has not written yet.
unfoldable pub moved_word : ℕ → List ℕ → ℕ → ℕ
moved_word by seen index = if leb by index then word_at (index - by) seen else 0

unfoldable pub move_words : ℕ → List ℕ → List ℕ
move_words by seen =
    moved_word by seen 0 ∷ moved_word by seen 1 ∷ moved_word by seen 2 ∷ moved_word by seen 3 ∷ []

unfoldable pub carry_bits : ℕ → ℕ → List ℕ → List ℕ
carry_bits bits carry [] = []
carry_bits bits carry (w ∷ ws) =
    bit_or (w * 2 ^ bits % 2 ^ word_bits) carry ∷ carry_bits bits (w / 2 ^ (word_bits - bits)) ws

unfoldable pub slide_words : ℕ → List ℕ → List ℕ
slide_words by seen = if ltb 0 by then move_words by seen else seen

unfoldable pub slide_bits : ℕ → List ℕ → List ℕ
slide_bits bits seen = if ltb 0 bits then carry_bits bits 0 seen else seen

unfoldable pub slide : ℕ → List ℕ → List ℕ
slide by seen =
    if leb width by
    then no_words
    else slide_bits (by % word_bits) (slide_words (by / word_bits) seen)

abbrev pub admit_behind : ReplayWindow → ℕ → ReplayWindow × Admission
admit_behind w behind =
    if leb width behind
    then (w, too_old)
    else if get behind w.seen
    then (w, replay)
    else (record w { seen = set behind w.seen }, fresh)

unfoldable pub admit : ReplayWindow → ℕ → ReplayWindow × Admission
admit w number =
    if ltb w.top number
    then (record { top = number; seen = set 0 (slide (number - w.top) w.seen) }, fresh)
    else admit_behind w (w.top - number)

-- `None` before anything arrived; the map is the bits 1 to 64.
unfoldable pub acknowledgement : ReplayWindow → Option (ℕ × ℕ)
acknowledgement w =
    if not (get 0 w.seen)
    then none
    else some (w.top, bit_or (word_at 0 w.seen / 2) (word_at 1 w.seen * 2 ^ 63 % 2 ^ word_bits))
