-- ===== src/Dgram/Window/Ack.antt =====
-- What the window reports as arrived is what was accepted, and no number is accepted twice.
use braid.Prelude.{
  ℕ, ◌-◌, ◌*◌, ◌/◌, ◌%◌, ◌^◌, ◌≡◌, sym, inl, inr, true, false, some, List, [], ◌∷◌, map, arith, ltb,
  leb, ltb→lt, Bool-cases,
}
use braid.Dgram.Window.{
  width, word_bits, ReplayWindow, no_words, new_window, word_at, get, admit, acknowledgement,
}
use braid.Dgram.Window.Digits.{digit}
use braid.Dgram.Window.Slide.{new-IsWords, digit-none}
use braid.Dgram.Window.Refine.{mem, accept, verdict, Holds, newer, is_not_one, admit-Holds}
use Prim.Native.Nat.{bit_or}
use mathlib.Core.Path.{subst}

-- A sequence of arrivals, from a window and what it had accepted.
unfoldable pub run : ReplayWindow → List ℕ → List ℕ → ReplayWindow × List ℕ
run w log [] = (w, log)
run w log (n ∷ ns) = let (w', a) = admit w n in run w' (accept log n a) ns

unfoldable pub IsDistinct : List ℕ → Type 0
IsDistinct [] = Unit
IsDistinct (n ∷ ns) = (mem n ns ≡ false) × IsDistinct ns

accept-IsDistinct :
    (w : ReplayWindow) (log : List ℕ) (n : ℕ)
    → Holds w log
    → IsDistinct log
    → IsDistinct (accept log n (verdict w.top log n))
unfolding accept verdict IsDistinct
accept-IsDistinct w log n h d = elim (Bool-cases (ltb w.top n)) [
  | inl past ↦ rw past (newer w log n h (ltb→lt w.top n past), d)
  | inr within ↦ rw within (elim (Bool-cases (leb width (w.top - n))) [
    | inl far ↦ rw far d
    | inr near ↦ rw near (elim (Bool-cases (mem n log)) [
      | inl there ↦ rw there d
      | inr absent ↦ rw absent (absent, d)
    ])
  ])
]

run-both :
    (w : ReplayWindow) (log ns : List ℕ)
    → Holds w log
    → IsDistinct log
    → Holds (run w log ns).0 (run w log ns).1 × IsDistinct (run w log ns).1
unfolding run
run-both w log [] h d = (h, d)
run-both w log (n ∷ ns) h d =
    let (answer, held) = admit-Holds w log n h in
    subst
      (λ a.
        Holds (run (admit w n).0 (accept log n a) ns).0 (run (admit w n).0 (accept log n a) ns).1
        × IsDistinct (run (admit w n).0 (accept log n a) ns).1)
      (sym answer)
      (run-both (admit w n).0 (accept log n (verdict w.top log n)) ns held
        (accept-IsDistinct w log n h d))

pub new-Holds : Holds new_window []
unfolding mem
new-Holds = record {
  shape = new-IsWords;
  old = λ n there. cc;
  told = λ k small le. is_not_one (digit k no_words) (digit-none k);
  clear = λ k small past. digit-none k;
}

-- Whatever arrives at a new window, in any order and as often as it likes, no number is accepted
-- twice, and the window holds exactly what was accepted.
pub run-Distinct :
    (ns : List ℕ)
    → IsDistinct (run new_window [] ns).1 × Holds (run new_window [] ns).0 (run new_window [] ns).1
unfolding IsDistinct
run-Distinct ns = let (h, d) = run-both new_window [] ns new-Holds tt in (d, h)

acknowledged :
    (w : ReplayWindow) (top map : ℕ)
    → acknowledgement w ≡ some (top, map)
    → (get 0 w.seen ≡ true)
      × (w.top ≡ top)
      × (bit_or (word_at 0 w.seen / 2) (word_at 1 w.seen * 2 ^ 63 % 2 ^ word_bits) ≡ map)
unfolding acknowledgement
acknowledged w top map h = ground arith
