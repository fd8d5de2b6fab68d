-- ===== src/Client/Journal/Exact.antt =====
-- crates/client/src/journal.rs: what is replayed is exactly what is not acknowledged.
use braid.Prelude.{
  ℕ, suc, ◌≤◌, ◌<◌, ◌≡◌, refl, sym, ap, inl, inr, true, false, Option, none, List, [], ◌∷◌, arith,
  ltb, leb, if◌then◌else◌, lt→ltb, Bool-cases, length, length-append, length-drop,
}
use braid.Client.Journal.{
  keep_spare, CommandJournal, fresh, push, displace_oldest, retire, acknowledge,
}

module _ (Message : Type 0) (input_bytes : Message → Option (List ℕ)) where
  -- Sequence numbers are `lo` or more and ascend.
  abbrev pub Ascends : ℕ → List (ℕ × Message) → Type 0
  Ascends lo [] = Unit {0}
  Ascends lo ((sequence, message) ∷ rest) = (lo ≤ sequence) × Ascends (suc sequence) rest

  -- Those above `highest`, and those not.
  abbrev pub unconfirmed : ℕ → List (ℕ × Message) → List (ℕ × Message)
  unconfirmed highest [] = []
  unconfirmed highest ((sequence, message) ∷ rest) =
      if ltb highest sequence
      then (sequence, message) ∷ unconfirmed highest rest
      else unconfirmed highest rest

  abbrev pub confirmed : ℕ → List (ℕ × Message) → List Message
  confirmed highest [] = []
  confirmed highest ((sequence, message) ∷ rest) =
      if ltb highest sequence then confirmed highest rest else message ∷ confirmed highest rest

  abbrev pub last_input : Option (List ℕ) → List Message → Option (List ℕ)
  last_input spare [] = spare
  last_input spare (m ∷ ms) = last_input (keep_spare spare (input_bytes m)) ms

  all_unconfirmed :
      (highest lo : ℕ) (es : List (ℕ × Message))
      → highest < lo
      → Ascends lo es
      → (unconfirmed highest es ≡ es) × (confirmed highest es ≡ [])
  all_unconfirmed highest lo [] above a = (refl, refl)
  all_unconfirmed highest lo ((s, m) ∷ es) above a =
      let above_s : ltb highest s ≡ true = lt→ltb highest s (omega (arith, a.0)) in
      let rest = all_unconfirmed highest (suc s) es (omega (arith, a.0)) a.1 in
      (rw above_s (ap (◌∷◌ (s, m)) rest.0), rw above_s rest.1)

  retire-exact :
      (es : List (ℕ × Message)) (highest lo : ℕ) (spare : Option (List ℕ))
      → Ascends lo es
      → ((retire Message input_bytes es highest spare).0 ≡ unconfirmed highest es)
        × ((retire Message input_bytes es highest spare).1
            ≡ last_input spare (confirmed highest es))
  unfolding retire
  retire-exact [] highest lo spare a = (refl, refl)
  retire-exact ((s, m) ∷ es) highest lo spare a = elim (Bool-cases (leb s highest)) [
    | inl done ↦
        let below : ltb highest s ≡ false = ground arith in
        let rest = retire-exact es highest (suc s) (keep_spare spare (input_bytes m)) a.1 in
        (rw (done, below) rest.0, rw (done, below) rest.1)
    | inr later ↦
        let above : ltb highest s ≡ true = ground arith in
        let rest = all_unconfirmed highest (suc s) es (ground arith) a.1 in
        (
          rw (later, above) (ap (◌∷◌ (s, m)) (sym rest.0)),
          rw (later, above) (ap (last_input spare) (sym rest.1)),
        )
  ]

  -- An acknowledgement keeps, in order, exactly the commands above it, and hands back the buffer of
  -- the last input among the others. Sequence numbers ascend.
  pub acknowledge-exact :
      (j : CommandJournal Message) (highest lo : ℕ)
      → Ascends lo j.entries
      → ((acknowledge Message input_bytes j highest).0.entries ≡ unconfirmed highest j.entries)
        × ((acknowledge Message input_bytes j highest).1
            ≡ last_input none (confirmed highest j.entries))
  unfolding acknowledge
  acknowledge-exact j highest lo a = retire-exact j.entries highest lo none a

  -- What a caller does with the journal: a command it numbers, an acknowledgement, an oldest command
  -- that has to make room.
  pub data Call : Type 0 where
    pushes : (sequence : ℕ) (message : Message) → Call
    acknowledges : (highest : ℕ) → Call
    displaces : Call

  pub apply : CommandJournal Message → Call → CommandJournal Message
  apply j (pushes sequence message) = (push Message j sequence message).0
  apply j (acknowledges highest) = (acknowledge Message input_bytes j highest).0
  apply j displaces = displace_oldest Message j

  pub run : CommandJournal Message → List Call → CommandJournal Message
  run j [] = j
  run j (c ∷ cs) = run (apply j c) cs

  retire-length :
      (es : List (ℕ × Message)) (highest : ℕ) (spare : Option (List ℕ))
      → length (retire Message input_bytes es highest spare).0 ≤ length es
  unfolding retire
  retire-length [] highest spare = omega arith
  retire-length ((s, m) ∷ es) highest spare = elim (Bool-cases (leb s highest)) [
    | inl done ↦
        rw done (omega (arith, retire-length es highest (keep_spare spare (input_bytes m))))
    | inr later ↦ rw later (omega arith)
  ]

  abbrev pub Fits : ℕ → CommandJournal Message → Type 0
  Fits capacity j = (j.capacity ≡ capacity) × (length j.entries ≤ capacity)

  push-Fits :
      (capacity : ℕ) (j : CommandJournal Message) (s : ℕ) (m : Message)
      → Fits capacity j
      → Fits capacity (push Message j s m).0
  unfolding push
  push-Fits capacity j s m v =
      (ground (arith, v), ground (arith, v, length-append j.entries ((s, m) ∷ [])))

  apply-Fits :
      (capacity : ℕ) (j : CommandJournal Message) (c : Call)
      → Fits capacity j
      → Fits capacity (apply j c)
  unfolding apply push acknowledge displace_oldest
  apply-Fits capacity j (pushes s m) v = push-Fits capacity j s m v
  apply-Fits capacity j (acknowledges h) v =
      (v.0, omega (arith, v.1, retire-length j.entries h none))
  apply-Fits capacity j displaces v = (v.0, omega (arith, v.1, length-drop 1 j.entries))

  run-Fits_from :
      (capacity : ℕ) (j : CommandJournal Message) (cs : List Call)
      → Fits capacity j
      → Fits capacity (run j cs)
  unfolding run
  run-Fits_from capacity j [] v = v
  run-Fits_from capacity j (c ∷ cs) v =
      run-Fits_from capacity (apply j c) cs (apply-Fits capacity j c v)

  -- However it is used, the journal never holds more commands than it was made for.
  run-Fits : (capacity : ℕ) (cs : List Call) → Fits capacity (run (fresh Message capacity) cs)
  unfolding fresh
  run-Fits capacity cs = run-Fits_from capacity (fresh Message capacity) cs (refl, omega arith)
