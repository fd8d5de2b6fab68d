-- ===== src/Client/Journal/Tests.antt =====
-- crates/client/src/journal.rs: the journal on concrete commands.
use braid.Prelude.{ℕ, ◌≡◌, refl, Option, none, some, List, [], ◌∷◌, arith}
use braid.Client.Journal.{CommandJournal, retire, acknowledge}
use braid.Client.Journal.Exact.{acknowledge-exact, Call, pushes, acknowledges, displaces}

pub data Command : Type 0 where
  input : (bytes : List ℕ) → Command
  repaint : Command

abbrev typed : Command → Option (List ℕ)
typed (input bytes) = some bytes
typed repaint = none

abbrev three : CommandJournal Command
three = record {
  capacity = 3;
  entries = (4, input (97 ∷ [])) ∷ (5, repaint) ∷ (7, input (98 ∷ [])) ∷ [];
}

three_acknowledged :
    acknowledge Command typed three 5
    ≡ (record three { entries = (7, input (98 ∷ [])) ∷ [] }, some (97 ∷ []))
unfolding acknowledge retire
three_acknowledged = refl

acknowledge-exact_example :
    ((acknowledge Command typed three 5).0.entries ≡ (7, input (98 ∷ [])) ∷ [])
    × ((acknowledge Command typed three 5).1 ≡ some (97 ∷ []))
acknowledge-exact_example = acknowledge-exact Command typed three 5 0 (omega arith)

abbrev calls : List (Call Command typed)
calls = pushes 1 repaint ∷ pushes 2 (input []) ∷ pushes 3 repaint ∷ acknowledges 1 ∷ displaces ∷ []
