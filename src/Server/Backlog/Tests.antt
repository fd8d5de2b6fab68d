-- ===== src/Server/Backlog/Tests.antt =====
-- crates/server/src/backlog.rs: the ring on concrete output.
use braid.Prelude.{ℕ, ◌≤◌, ◌<◌, ◌≡◌, refl, ◌⊎◌, none, some, List, [], ◌∷◌, ◌++◌, arith}
use braid.Server.Backlog.{
  BacklogRing, fresh, doubled, zeros, slice, copy_at, regrow, grow_for, advance, evict, around,
  append_at, put, push, replay_slices, replay_from,
}
use braid.Server.Backlog.Log.{Holds, fresh-Holds}
use braid.Server.Backlog.Refine.{push-Holds}
use braid.Server.Backlog.Replay.{replay-exact}

abbrev text : List ℕ
text = 1 ∷ 2 ∷ 3 ∷ []

abbrev more : List ℕ
more = 4 ∷ 5 ∷ []

-- A ring of four that has been pushed three bytes and then two.
abbrev turned : BacklogRing
turned = push (push (fresh 4) text) more

turned_kept : replay_from turned 2 ≡ some (3 ∷ 4 ∷ [], 5 ∷ [])
unfolding replay_from replay_slices slice push put fresh grow_for regrow doubled zeros copy_at
    advance evict append_at around
turned_kept = refl

text-Holds : Holds text (push (fresh 4) text)
text-Holds = push-Holds [] (fresh 4) text (omega arith) (fresh-Holds 4)

push-Holds_example : Holds (1 ∷ 2 ∷ 3 ∷ 4 ∷ 5 ∷ []) turned
push-Holds_example = push-Holds text (push (fresh 4) text) more (omega arith) text-Holds

four : turned.capacity ≡ 4
unfolding push put fresh grow_for regrow evict append_at copy_at slice zeros doubled around
four = refl

replay-exact_example :
    ((turned.base ≤ 2)
      × (2 ≤ 5)
      × ((a : List ℕ) × (b : List ℕ) × (replay_from turned 2 ≡ some (a, b))
          × (a ++ b ≡ 3 ∷ 4 ∷ 5 ∷ [])))
    ⊎ (((2 < turned.base) ⊎ (5 < 2)) × (replay_from turned 2 ≡ none))
replay-exact_example =
    replay-exact (1 ∷ 2 ∷ 3 ∷ 4 ∷ 5 ∷ []) turned 2
      (push-Holds text (push (fresh 4) text) more (omega arith) text-Holds) (omega (arith, four))
