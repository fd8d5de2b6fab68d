-- ===== src/Server/Mailbox/Every.antt =====
-- What holds of each event of a list, and of what a pick or a lane leaves of it.
use braid.Prelude.{
  ℕ, zero, suc, ◌≡◌, inl, inr, true, Option, none, some, List, [], ◌∷◌, ◌++◌, Bool-cases,
}
use braid.Server.Mailbox.{ActorEvent, is_bulk, found, pick, bulk, not_bulk}

module _ {P : Type 0} where
  -- A predicate on each event of a list.
  abbrev pub Every : (ActorEvent P → Type 0) → List (ActorEvent P) → Type 0
  Every Q [] = Unit
  Every Q (e ∷ es) = Q e × Every Q es

  pub Every-map :
      (Q R : ActorEvent P → Type 0) (es : List (ActorEvent P))
      → ((e : ActorEvent P) → Q e → R e)
      → Every Q es
      → Every R es
  Every-map Q R [] f h = tt
  Every-map Q R (e ∷ es) f h = (f e h.0, Every-map Q R es f h.1)

  -- Of what a pick leaves.
  abbrev pub Remain : (ActorEvent P → Type 0) → Option (ActorEvent P × List (ActorEvent P)) → Type 0
  Remain Q none = Unit
  Remain Q (some (x, rest)) = Every Q rest

  Remain-found :
      (Q : ActorEvent P → Type 0) (e : ActorEvent P)
      (o : Option (ActorEvent P × List (ActorEvent P)))
      → Q e
      → Remain Q o
      → Remain Q (found e o)
  Remain-found Q e none q h = tt
  Remain-found Q e (some (x, rest)) q h = (q, h)

  pub Remain-pick :
      (Q : ActorEvent P → Type 0) (i : ℕ) (es : List (ActorEvent P))
      → Every Q es
      → Remain Q (pick i es)
  unfolding pick
  Remain-pick Q i [] h = tt
  Remain-pick Q zero (e ∷ es) h = h.1
  Remain-pick Q (suc i) (e ∷ es) h = Remain-found Q e (pick i es) h.0 (Remain-pick Q i es h.1)

  pub Every-append :
      (Q : ActorEvent P → Type 0) (xs ys : List (ActorEvent P))
      → Every Q xs
      → Every Q ys
      → Every Q (xs ++ ys)
  Every-append Q [] ys h k = k
  Every-append Q (x ∷ xs) ys h k = (h.0, Every-append Q xs ys h.1 k)

  pub Every-bulk :
      (Q : ActorEvent P → Type 0) (es : List (ActorEvent P))
      → Every Q es
      → Every (λ e. (is_bulk e ≡ true) × Q e) (bulk es) × Every Q (not_bulk es)
  unfolding bulk not_bulk
  Every-bulk Q [] h = (tt, tt)
  Every-bulk Q (e ∷ es) h = elim (Bool-cases (is_bulk e)) [
    | inl b ↦ rw b (((b, h.0), (Every-bulk Q es h.1).0), (Every-bulk Q es h.1).1)
    | inr c ↦ rw c ((Every-bulk Q es h.1).0, (h.0, (Every-bulk Q es h.1).1))
  ]
