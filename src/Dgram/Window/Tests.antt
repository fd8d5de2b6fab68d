-- ===== src/Dgram/Window/Tests.antt =====
-- The window of crates/dgram/src/window.rs on concrete arrivals.
use braid.Prelude.{ℕ, ◌≡◌, refl, List, [], ◌∷◌}
use braid.Dgram.Window.{
  ReplayWindow, new_window, word_at, or_word, position, set, get, moved_word, move_words,
  carry_bits, slide_words, slide_bits, slide, admit,
}
use braid.Dgram.Window.Refine.{accept, verdict, Holds, admit-Holds}
use braid.Dgram.Window.Ack.{run, IsDistinct, run-Distinct}

abbrev arrivals : List ℕ
arrivals = 0 ∷ 70 ∷ 69 ∷ 70 ∷ 5 ∷ 400 ∷ 100 ∷ 145 ∷ []

accepted_once : (run new_window [] arrivals).1 ≡ 145 ∷ 400 ∷ 5 ∷ 69 ∷ 70 ∷ 0 ∷ []
unfolding run admit accept get set slide slide_words slide_bits move_words moved_word carry_bits
    position word_at or_word
accepted_once = refl

abbrev window_of : List ℕ → ReplayWindow
window_of ns = (run new_window [] ns).0

run-Distinct_example :
    IsDistinct (run new_window [] arrivals).1
    × Holds (run new_window [] arrivals).0 (run new_window [] arrivals).1
run-Distinct_example = run-Distinct arrivals

-- What arrived before, and a packet that slides the window over three words.
abbrev before : List ℕ
before = 0 ∷ 70 ∷ 69 ∷ 5 ∷ []

admit-Holds_example :
    ((admit (window_of before) 270).1
      ≡ verdict (window_of before).top (run new_window [] before).1 270)
    × Holds (admit (window_of before) 270).0 (
        accept
          (run new_window [] before).1
          270
          (verdict (window_of before).top (run new_window [] before).1 270))
admit-Holds_example =
    admit-Holds (window_of before) (run new_window [] before).1 270 (run-Distinct before).1
