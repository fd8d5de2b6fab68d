-- ===== src/Dgram/Mtu/Probe.antt =====
-- crates/dgram/src/mtu.rs: the constants, and the state machine of the search.
use braid.Prelude.{ℕ, Bool, true, false, Option, some, List, [], ◌∷◌, leb, from_secs, from_mins}

abbrev pub candidates : List ℕ
candidates = 1400 ∷ 1500 ∷ 4000 ∷ 8900 ∷ []

abbrev pub candidate_losses : ℕ
candidate_losses = 2

abbrev pub pmtu_blackhole_losses : ℕ
pmtu_blackhole_losses = 3

abbrev pub pmtu_blackhole_silences : ℕ
pmtu_blackhole_silences = 2

abbrev pub confirm_losses : ℕ
confirm_losses = 2

abbrev pub probe_spacing : ℕ
probe_spacing = from_secs 1

abbrev pub cooldown : ℕ
cooldown = from_mins 1

abbrev pub search_retry : ℕ
search_retry = from_mins 1

pub data Fragmentation : Type 0 where
  refused permitted : Fragmentation

pub data Search : Type 0 where
  unproven : Search
  asking : (candidate : ℕ) (outstanding : Option ℕ) (lost : ℕ) (due : Option ℕ) → Search
  settled : Search
  confirming : (due : ℕ) (outstanding : Option ℕ) (lost : ℕ) → Search
  cooling : (until : ℕ) → Search

abbrev pub is_unproven : Search → Bool
is_unproven unproven = true
is_unproven s = false

abbrev pub is_confirming : Search → Bool
is_confirming (confirming due outstanding lost) = true
is_confirming s = false

-- Whether a pause in the search is over.
abbrev pub is_over : Search → ℕ → Bool
is_over (cooling until) now = leb until now
is_over s now = false

-- `if let Asking | Confirming`: what is outstanding is replaced.
abbrev pub with_outstanding : Search → ℕ → Search
with_outstanding (asking candidate o lost due) number = asking candidate (some number) lost due
with_outstanding (confirming due o lost) number = confirming due (some number) lost
with_outstanding s number = s
