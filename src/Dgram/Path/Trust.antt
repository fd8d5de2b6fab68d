-- ===== src/Dgram/Path/Trust.antt =====
-- Whom the validator trusts: only an address that proved itself, by a token that was handed out
-- for it.
use braid.Prelude.{
  ℕ, ◌≡◌, refl, inl, inr, Bool, true, ◌&&◌, ◌||◌, Option, none, some, List, [], ◌∷◌, arith, ◌==◌,
  Bool-cases, is_none_or,
}
use braid.Dgram.Path.{
  earned, probe_arrived, probe_deadline, challenge, Candidate, probe, Standing, proven, claimed,
  PathValidator, dialled, claimed_by, arrived, poll_challenge, may_send, spent, answered,
}
use braid.Dgram.Path.History.{
  Event, arrive, send, poll, answer, History, tells, sent_to, step, run, Origin, dialling, claiming,
  start,
}

abbrev pub knows : (ℕ → ℕ → Bool) → ℕ → Option ℕ → Bool
knows told at token = is_none_or token (λ t. told at t)

abbrev pub standing_told : (ℕ → ℕ → Bool) → ℕ → Standing → Bool
standing_told told at proven = true
standing_told told at (claimed p) = knows told at p.token

abbrev pub candidate_told : (ℕ → ℕ → Bool) → Option (ℕ × Candidate) → Bool
candidate_told told none = true
candidate_told told (some (at, c)) = knows told at (probe c).token

abbrev pub standing_proved : (ℕ → Bool) → ℕ → Standing → Bool
standing_proved proved at proven = proved at
standing_proved proved at (claimed p) = true

-- The tokens that the validator would take are ones handed out for the address that holds them,
-- and an address that it sends to freely has proved itself.
pub record Trust (v : PathValidator) (told : ℕ → ℕ → Bool) (proved : ℕ → Bool) : Type 0 where
  pub standing : standing_told told v.current v.standing ≡ true
  pub candidate : candidate_told told v.candidate ≡ true
  pub vouched : standing_proved proved v.current v.standing ≡ true

arrived-Trust :
    (v : PathValidator) (told : ℕ → ℕ → Bool) (proved : ℕ → Bool) (from bytes now : ℕ)
    → Trust v told proved
    → Trust (arrived v from bytes now).0 told proved
unfolding arrived probe_arrived earned
arrived-Trust v told proved from bytes now h = record {
  standing = ground (arith, h.standing);
  candidate = ground (arith, h.candidate);
  vouched = ground (arith, h.vouched);
}

spent-Trust :
    (v : PathValidator) (told : ℕ → ℕ → Bool) (proved : ℕ → Bool) (to bytes : ℕ)
    → Trust v told proved
    → Trust (spent v to bytes) told proved
unfolding spent
spent-Trust v told proved to bytes h = record {
  standing = ground (arith, h.standing);
  candidate = ground (arith, h.candidate);
  vouched = ground (arith, h.vouched);
}

poll-Trust :
    (v : PathValidator) (told : ℕ → ℕ → Bool) (proved : ℕ → Bool) (now : ℕ)
    (drawn second : Option ℕ)
    → Trust v told proved
    → Trust
        (poll_challenge v now drawn second).0
        (λ a t. told a t || tells (poll_challenge v now drawn second).1 a t)
        proved
unfolding poll_challenge challenge probe_deadline
poll-Trust v told proved now drawn second h = record {
  standing = ground (arith, h.standing);
  candidate = ground (arith, h.candidate);
  vouched = ground (arith, h.vouched);
}

answered-Trust :
    (v : PathValidator) (told : ℕ → ℕ → Bool) (proved : ℕ → Bool) (from token : ℕ)
    → Trust v told proved
    → Trust (answered v from token).0 told (λ a. proved a || (from == a) && told a token)
unfolding answered
answered-Trust v told proved from token h = record {
  standing = ground (arith, h.standing);
  candidate = ground (arith, h.candidate);
  vouched = ground (arith, h.standing, h.candidate, h.vouched);
}

abbrev pub IsTrusty : History → Type 0
IsTrusty h = Trust h.path h.told h.proved

pub step-IsTrusty : (h : History) (e : Event) → IsTrusty h → IsTrusty (step h e)
unfolding step sent_to
step-IsTrusty h (arrive from bytes now) k = arrived-Trust h.path h.told h.proved from bytes now k
step-IsTrusty h (send to bytes) k = elim (Bool-cases (may_send h.path to bytes)) [
  | inl may ↦ rw may (spent-Trust h.path h.told h.proved to bytes k)
  | inr barred ↦ rw barred k
]
step-IsTrusty h (poll now drawn second) k = poll-Trust h.path h.told h.proved now drawn second k
step-IsTrusty h (answer from token) k = answered-Trust h.path h.told h.proved from token k

run-IsTrusty : (h : History) (es : List Event) → IsTrusty h → IsTrusty (run h es)
unfolding run
run-IsTrusty h [] k = k
run-IsTrusty h (e ∷ es) k = run-IsTrusty (step h e) es (step-IsTrusty h e k)

pub start-IsTrusty : (o : Origin) (peer : ℕ) → IsTrusty (start o peer)
unfolding dialled claimed_by
start-IsTrusty dialling peer = record { standing = refl; candidate = refl; vouched = ground arith }
start-IsTrusty claiming peer = record { standing = refl; candidate = refl; vouched = refl }

pub reached-IsTrusty : (o : Origin) (peer : ℕ) (es : List Event) → IsTrusty (run (start o peer) es)
reached-IsTrusty o peer es = run-IsTrusty (start o peer) es (start-IsTrusty o peer)
