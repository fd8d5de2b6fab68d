-- ===== src/Dgram/Path/Amplify.antt =====
-- An address that has not proved itself is never sent more than three bytes for each byte it sent.
use braid.Prelude.{
  ℕ, ◌+◌, ◌-◌, ◌*◌, ◌≤◌, ◌≡◌, inl, inr, Bool, true, false, Option, List, [], ◌∷◌, arith, ◌==◌,
  if◌then◌else◌, Bool-cases, map_or,
}
use braid.Dgram.Path.{
  amplification_limit, earned, probe_arrived, probe_deadline, challenge, PathValidator, dialled,
  claimed_by, arrived, poll_challenge, unproven, may_send, spent, answered,
}
use braid.Dgram.Path.History.{
  Event, arrive, send, poll, answer, History, sent_to, step, run, Origin, dialling, claiming, start,
}
use braid.Dgram.Path.Trust.{Trust, IsTrusty, step-IsTrusty, start-IsTrusty}

-- What an address may still be sent before it answers.
unfoldable pub credit_of : PathValidator → ℕ → ℕ
credit_of v to = map_or (unproven v to) 0 (λ p. p.credit)

arrived-credit :
    (v : PathValidator) (from bytes now to : ℕ)
    → credit_of (arrived v from bytes now).0 to
      ≤ credit_of v to + (if from == to then amplification_limit * bytes else 0)
unfolding credit_of unproven arrived probe_arrived earned
arrived-credit v from bytes now to = ground arith

poll-credit :
    (v : PathValidator) (now : ℕ) (drawn second : Option ℕ) (to : ℕ)
    → credit_of (poll_challenge v now drawn second).0 to ≤ credit_of v to
unfolding credit_of unproven poll_challenge challenge probe_deadline
poll-credit v now drawn second to = ground arith

answered-credit :
    (v : PathValidator) (from token to : ℕ)
    → credit_of (answered v from token).0 to ≤ credit_of v to
unfolding credit_of unproven answered
answered-credit v from token to = ground arith

spent-credit :
    (v : PathValidator) (at bytes to : ℕ)
    → credit_of (spent v at bytes) to ≡ credit_of v to - (if at == to then bytes else 0)
unfolding credit_of unproven spent
spent-credit v at bytes to = ground arith

-- What is let through to an address that has not proved itself, its credit covers.
covered :
    (v : PathValidator) (told : ℕ → ℕ → Bool) (proved : ℕ → Bool) (to bytes : ℕ)
    → Trust v told proved
    → may_send v to bytes ≡ true
    → proved to ≡ false
    → bytes ≤ credit_of v to
unfolding may_send unproven credit_of
covered v told proved to bytes h may fresh = ground (arith, h.vouched)

-- What went to an address and what may still go there, until it proves itself.
unfoldable owing : History → ℕ → ℕ
owing h a = if h.proved a then h.out a else h.out a + credit_of h.path a

IsPaid : History → ℕ → Type 0
IsPaid h a = owing h a ≤ amplification_limit * h.got a

sent_to-IsPaid :
    (h : History) (to bytes a : ℕ)
    → IsTrusty h
    → may_send h.path to bytes ≡ true
    → IsPaid h a
    → IsPaid (sent_to h to bytes) a
unfolding IsPaid sent_to owing
sent_to-IsPaid h to bytes a k may paid = elim (Bool-cases (h.proved a)) [
  | inl known ↦ ground (arith, known, paid)
  | inr fresh ↦ elim (Bool-cases (to == a)) [
    | inl same ↦
        let e : a ≡ to = ground arith in
        ground (
          arith,
          spent-credit h.path to bytes a,
          covered h.path h.told h.proved a bytes k (rw e may) fresh,
          fresh,
          paid,
        )
    | inr other ↦ ground (arith, spent-credit h.path to bytes a, other, fresh, paid)
  ]
]

step-IsPaid : (h : History) (e : Event) (a : ℕ) → IsTrusty h → IsPaid h a → IsPaid (step h e) a
unfolding IsPaid step owing
step-IsPaid h (arrive from bytes now) a k paid =
    ground (arith, arrived-credit h.path from bytes now a)
step-IsPaid h (send to bytes) a k paid = elim (Bool-cases (may_send h.path to bytes)) [
  | inl may ↦ rw may (sent_to-IsPaid h to bytes a k may paid)
  | inr barred ↦ rw barred paid
]
step-IsPaid h (poll now drawn second) a k paid =
    ground (arith, poll-credit h.path now drawn second a)
step-IsPaid h (answer from token) a k paid = ground (arith, answered-credit h.path from token a)

run-IsPaid : (h : History) (es : List Event) (a : ℕ) → IsTrusty h → IsPaid h a → IsPaid (run h es) a
unfolding run
run-IsPaid h [] a k paid = paid
run-IsPaid h (e ∷ es) a k paid =
    run-IsPaid (step h e) es a (step-IsTrusty h e k) (step-IsPaid h e a k paid)

start-IsPaid : (o : Origin) (peer a : ℕ) → IsPaid (start o peer) a
unfolding IsPaid owing credit_of unproven dialled claimed_by
start-IsPaid dialling peer a = ground arith
start-IsPaid claiming peer a = ground arith

-- Whatever arrives from wherever, in any order, and whatever is sent when it may be, no address is
-- sent more than three times the bytes that came from it before it has proved itself. It proves
-- itself by an answer, from there, with a token of a challenge that was handed out for that very
-- address; only the peer that this end dialled itself needs no proof.
pub never-amplifies :
    (o : Origin) (peer : ℕ) (es : List Event) (a : ℕ)
    → (run (start o peer) es).out a ≤ amplification_limit * (run (start o peer) es).got a
unfolding IsPaid owing
never-amplifies o peer es a =
    ground (arith, run-IsPaid (start o peer) es a (start-IsTrusty o peer) (start-IsPaid o peer a))
