-- ===== src/Dgram/Path/Move.antt =====
-- The address in use changes only for one that answered a challenge handed out for it.
use braid.Prelude.{ℕ, ◌≡◌, sym, ◌≢◌, Bool, true, Option, none, some, List, arith}
use braid.Dgram.Path.{PathValidator, arrived, poll_challenge, candidate_probe, spent, answered}
use braid.Dgram.Path.History.{
  Event, arrive, send, poll, answer, History, sent_to, step, run, Origin, start,
}
use braid.Dgram.Path.Trust.{candidate_told, IsTrusty, reached-IsTrusty}

-- The token that a candidate at this address has been sent.
unfoldable pub candidate_token : PathValidator → ℕ → Option ℕ
candidate_token v at = elim (candidate_probe v.candidate at) [ none ↦ none | some p ↦ p.token ]

arrived-current :
    (v : PathValidator) (from bytes now : ℕ) → (arrived v from bytes now).0.current ≡ v.current
unfolding arrived
arrived-current v from bytes now = ground arith

poll-current :
    (v : PathValidator) (now : ℕ) (drawn second : Option ℕ)
    → (poll_challenge v now drawn second).0.current ≡ v.current
unfolding poll_challenge
poll-current v now drawn second = ground arith

spent-current : (v : PathValidator) (to bytes : ℕ) → (spent v to bytes).current ≡ v.current
unfolding spent
spent-current v to bytes = ground arith

answered-current :
    (v : PathValidator) (from token : ℕ)
    → (answered v from token).0.current ≢ v.current
    → ((answered v from token).0.current ≡ from) × (candidate_token v from ≡ some token)
unfolding answered candidate_token
answered-current v from token moved = ground arith

told-candidate :
    (v : PathValidator) (told : ℕ → ℕ → Bool) (from token : ℕ)
    → candidate_told told v.candidate ≡ true
    → candidate_token v from ≡ some token
    → told from token ≡ true
unfolding candidate_token
told-candidate v told from token h k = ground arith

-- An answer from this address, with a token of a challenge that was handed out for it.
unfoldable pub IsAnswer : History → ℕ → Event → Type 0
IsAnswer h to (answer from token) = (from ≡ to) × (h.told from token ≡ true)
IsAnswer h to (arrive from bytes now) = ⊥
IsAnswer h to (send at bytes) = ⊥
IsAnswer h to (poll now drawn second) = ⊥

step-IsAnswer :
    (h : History) (e : Event)
    → IsTrusty h
    → (step h e).path.current ≢ h.path.current
    → IsAnswer h (step h e).path.current e
unfolding step sent_to IsAnswer
step-IsAnswer h (arrive from bytes now) k moved = moved (arrived-current h.path from bytes now)
step-IsAnswer h (send to bytes) k moved = moved (ground (arith, spent-current h.path to bytes))
step-IsAnswer h (poll now drawn second) k moved = moved (poll-current h.path now drawn second)
step-IsAnswer h (answer from token) k moved =
    let (to, held) = answered-current h.path from token moved in
    (sym to, told-candidate h.path h.told from token k.candidate held)

-- Whatever an end has seen, when its next step leaves another address in use than before, that step
-- is an answer from that very address, with a token that an earlier poll handed out for it; nothing
-- else moves the path.
pub moved-IsAnswer :
    (o : Origin) (peer : ℕ) (es : List Event) (e : Event)
    → (step (run (start o peer) es) e).path.current ≢ (run (start o peer) es).path.current
    → IsAnswer (run (start o peer) es) (step (run (start o peer) es) e).path.current e
moved-IsAnswer o peer es e moved =
    step-IsAnswer (run (start o peer) es) e (reached-IsTrusty o peer es) moved
