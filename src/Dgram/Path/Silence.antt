-- ===== src/Dgram/Path/Silence.antt =====
-- An address that stays silent is challenged at most four times, and not before it is due.
use braid.Prelude.{
  ℕ, ◌+◌, ◌-◌, ◌≤◌, ◌≡◌, refl, inl, inr, Bool, true, false, not, ◌&&◌, Option, none, some, List, [],
  ◌∷◌, arith, leb, ◌==◌, Bool-cases, is_some, map_or,
}
use braid.Dgram.Path.{
  probe_limit, probe_deadline, challenge, PathValidator, dialled, claimed_by, arrived,
  poll_challenge, challenge_deadline, unproven, may_send, spent, answered,
}
use braid.Dgram.Path.History.{
  Event, arrive, send, poll, answer, History, is_to, sent_to, step, run, Origin, dialling, claiming,
  start,
}

-- A candidate is another address than the one in use.
unfoldable pub is_apart : PathValidator → Bool
is_apart v = elim v.candidate [ none ↦ true | some (at, c) ↦ not (at == v.current) ]

-- The challenges an address may still get without an arrival from it.
unfoldable pub chances : PathValidator → ℕ → ℕ
chances v to = map_or (unproven v to) 0 (λ p. probe_limit - p.sent)

arrived-chances :
    (v : PathValidator) (from bytes now a : ℕ)
    → (from == a) ≡ false
    → chances (arrived v from bytes now).0 a ≤ chances v a
unfolding chances unproven arrived
arrived-chances v from bytes now a other = ground arith

spent-chances : (v : PathValidator) (to bytes a : ℕ) → chances (spent v to bytes) a ≤ chances v a
unfolding chances unproven spent
spent-chances v to bytes a = ground arith

answered-chances :
    (v : PathValidator) (from token a : ℕ)
    → is_apart v ≡ true
    → chances (answered v from token).0 a ≤ chances v a
unfolding is_apart chances unproven answered
answered-chances v from token a apart = ground arith

poll-chances :
    (v : PathValidator) (now : ℕ) (drawn second : Option ℕ) (a : ℕ)
    → is_apart v ≡ true
    → chances (poll_challenge v now drawn second).0 a
        + is_to (poll_challenge v now drawn second).1 a
      ≤ chances v a
unfolding is_apart chances unproven poll_challenge challenge probe_deadline
poll-chances v now drawn second a apart = ground arith

poll-is_apart :
    (v : PathValidator) (now : ℕ) (drawn second : Option ℕ)
    → is_apart v ≡ true
    → is_apart (poll_challenge v now drawn second).0 ≡ true
unfolding is_apart poll_challenge challenge probe_deadline
poll-is_apart v now drawn second apart = ground arith

arrived-is_apart :
    (v : PathValidator) (from bytes now : ℕ)
    → is_apart v ≡ true
    → is_apart (arrived v from bytes now).0 ≡ true
unfolding is_apart arrived
arrived-is_apart v from bytes now apart = ground arith

spent-is_apart :
    (v : PathValidator) (to bytes : ℕ) → is_apart v ≡ true → is_apart (spent v to bytes) ≡ true
unfolding is_apart spent
spent-is_apart v to bytes apart = ground arith

answered-is_apart :
    (v : PathValidator) (from token : ℕ)
    → is_apart v ≡ true
    → is_apart (answered v from token).0 ≡ true
unfolding is_apart answered
answered-is_apart v from token apart = ground arith

step-is_apart : (h : History) (e : Event) → is_apart h.path ≡ true → is_apart (step h e).path ≡ true
unfolding step sent_to
step-is_apart h (arrive from bytes now) apart = arrived-is_apart h.path from bytes now apart
step-is_apart h (send to bytes) apart = elim (Bool-cases (may_send h.path to bytes)) [
  | inl may ↦ rw may (spent-is_apart h.path to bytes apart)
  | inr barred ↦ rw barred apart
]
step-is_apart h (poll now drawn second) apart = poll-is_apart h.path now drawn second apart
step-is_apart h (answer from token) apart = answered-is_apart h.path from token apart

run-is_apart :
    (h : History) (es : List Event) → is_apart h.path ≡ true → is_apart (run h es).path ≡ true
unfolding run
run-is_apart h [] apart = apart
run-is_apart h (e ∷ es) apart = run-is_apart (step h e) es (step-is_apart h e apart)

-- Nothing comes from this address.
unfoldable pub is_silent : ℕ → List Event → Bool
is_silent a [] = true
is_silent a (arrive from bytes now ∷ es) = not (from == a) && is_silent a es
is_silent a (send to bytes ∷ es) = is_silent a es
is_silent a (poll now drawn second ∷ es) = is_silent a es
is_silent a (answer from token ∷ es) = is_silent a es

-- The challenges handed out for `a`, with those that it may still get.
IsSpared : ℕ → History → ℕ → Type 0
IsSpared a h n = h.asked a + chances h.path a ≤ n

step-IsSpared :
    (h : History) (e : Event) (a n : ℕ)
    → is_apart h.path ≡ true
    → is_silent a (e ∷ []) ≡ true
    → IsSpared a h n
    → IsSpared a (step h e) n
unfolding IsSpared step sent_to is_silent
step-IsSpared h (arrive from bytes now) a n apart quiet k =
    ground (arith, arrived-chances h.path from bytes now a (ground arith))
step-IsSpared h (send to bytes) a n apart quiet k = elim (Bool-cases (may_send h.path to bytes)) [
  | inl may ↦ rw may (omega (arith, spent-chances h.path to bytes a, k))
  | inr barred ↦ rw barred k
]
step-IsSpared h (poll now drawn second) a n apart quiet k =
    omega (arith, poll-chances h.path now drawn second a apart, k)
step-IsSpared h (answer from token) a n apart quiet k =
    omega (arith, answered-chances h.path from token a apart, k)

is_silent-cons :
    (a : ℕ) (e : Event) (es : List Event)
    → is_silent a (e ∷ es) ≡ true
    → (is_silent a (e ∷ []) ≡ true) × (is_silent a es ≡ true)
unfolding is_silent
is_silent-cons a (arrive from bytes now) es h = ground arith
is_silent-cons a (send to bytes) es h = (refl, h)
is_silent-cons a (poll now drawn second) es h = (refl, h)
is_silent-cons a (answer from token) es h = (refl, h)

run-IsSpared :
    (h : History) (es : List Event) (a n : ℕ)
    → is_apart h.path ≡ true
    → is_silent a es ≡ true
    → IsSpared a h n
    → IsSpared a (run h es) n
unfolding run
run-IsSpared h [] a n apart quiet k = k
run-IsSpared h (e ∷ es) a n apart quiet k =
    let (now, later) = is_silent-cons a e es quiet in
    run-IsSpared (step h e) es a n (step-is_apart h e apart) later
      (step-IsSpared h e a n apart now k)

chances-limit : (v : PathValidator) (a : ℕ) → chances v a ≤ probe_limit
unfolding chances unproven
chances-limit v a = ground arith

start-is_apart : (o : Origin) (peer : ℕ) → is_apart (start o peer).path ≡ true
unfolding is_apart dialled claimed_by
start-is_apart dialling peer = refl
start-is_apart claiming peer = refl

-- After any history, while nothing comes from an address it is challenged at most four times,
-- however often the path is polled and whatever else arrives, is sent or is answered meanwhile.
pub silent-challenges :
    (o : Origin) (peer : ℕ) (before es : List Event) (a : ℕ)
    → is_silent a es ≡ true
    → (run (run (start o peer) before) es).asked a
      ≤ (run (start o peer) before).asked a + probe_limit
unfolding IsSpared
silent-challenges o peer before es a quiet =
    let h = run (start o peer) before in
    let apart = run-is_apart (start o peer) before (start-is_apart o peer) in
    omega (
      arith,
      run-IsSpared h es a (h.asked a + probe_limit) apart quiet
          (omega (arith, chances-limit h.path a)),
    )

abbrev pub is_due : Option ℕ → ℕ → Bool
is_due none now = false
is_due (some due) now = leb due now

-- A poll sends a challenge exactly when the deadline it is scheduled by has come, where the pool of
-- entropy is not dry.
poll-deadline :
    (v : PathValidator) (now drawn second : ℕ)
    → is_some (poll_challenge v now (some drawn) (some second)).1
      ≡ is_due (challenge_deadline v) now
unfolding poll_challenge challenge challenge_deadline probe_deadline
poll-deadline v now drawn second = ground arith
