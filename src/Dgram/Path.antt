-- ===== src/Dgram/Path.antt =====
-- crates/dgram/src/path.rs: which address an endpoint sends to, and what a move has to prove first.
-- Addresses and tokens are only compared, so they are numbers. What `getrandom` fills a token with
-- is an argument of the call that asks for one, `none` where the pool is dry.
pub mod History
pub mod Trust
pub mod Amplify
pub mod Move
pub mod Silence
pub mod Tests
use braid.Prelude.{
  ℕ, ◌+◌, ◌-◌, ◌*◌, min, Bool, false, ◌&&◌, ◌||◌, Option, none, some, ltb, leb, ◌==◌, if◌then◌else◌,
  is_some, u64_max, saturating_add, from_millis,
}

abbrev pub amplification_limit : ℕ
amplification_limit = 3

abbrev pub probe_interval : ℕ
probe_interval = from_millis 250

abbrev pub probe_limit : ℕ
probe_limit = 4

pub record Probe : Type 0 where
  pub token : Option ℕ
  pub due : Option ℕ
  pub sent : ℕ
  pub credit : ℕ

abbrev pub new_probe : Probe
new_probe = record { token = none; due = none; sent = 0; credit = 0 }

abbrev pub or_else : Option ℕ → ℕ → Option ℕ
or_else none now = some now
or_else (some due) now = some due

unfoldable pub earned : Probe → ℕ → Probe
earned p bytes = record p {
  credit = saturating_add p.credit (min (amplification_limit * bytes) u64_max);
}

-- `due.get_or_insert(now)`.
unfoldable pub probe_arrived : Probe → ℕ → ℕ → Probe
probe_arrived p bytes now = record (earned p bytes) { sent = 0; due = or_else p.due now }

unfoldable pub challengeable : Probe → Bool
challengeable p = is_some p.due && ltb p.sent probe_limit

unfoldable pub probe_deadline : Probe → Option ℕ
probe_deadline p = if ltb p.sent probe_limit then p.due else none

-- The token that is there, or the one just drawn.
abbrev pub or_drawn : Option ℕ → Option ℕ → Option ℕ
or_drawn none drawn = drawn
or_drawn (some token) drawn = some token

abbrev pub mint : Probe → ℕ → Option ℕ → Probe × Option ℕ
mint p now none = (record p { due = some (now + probe_interval) }, none)
mint p now (some token) = (
  record p { token = some token; sent = p.sent + 1; due = some (now + probe_interval) },
  some token,
)

abbrev pub challenge_at : Probe → ℕ → Option ℕ → Option ℕ → Probe × Option ℕ
challenge_at p now drawn none = (p, none)
challenge_at p now drawn (some due) =
    if ltb now due then (p, none) else mint p now (or_drawn p.token drawn)

unfoldable pub challenge : Probe → ℕ → Option ℕ → Probe × Option ℕ
challenge p now drawn = challenge_at p now drawn (probe_deadline p)

pub data Candidate : Type 0 where
  proposed : Probe → Candidate
  retiring : Probe → Candidate

abbrev pub probe : Candidate → Probe
probe (proposed p) = p
probe (retiring p) = p

-- `probe_mut`.
abbrev pub with_probe : Candidate → Probe → Candidate
with_probe (proposed p) q = proposed q
with_probe (retiring p) q = retiring q

abbrev pub candidate_arrived : Candidate → ℕ → ℕ → Candidate
candidate_arrived (proposed p) bytes now = proposed (probe_arrived p bytes now)
candidate_arrived (retiring p) bytes now = retiring (earned p bytes)

abbrev pub contradicted : Candidate → Candidate
contradicted (proposed p) = retiring p
contradicted (retiring p) = retiring p

pub data Arrival : Type 0 where
  established : Arrival
  probing : ℕ → Arrival
  pending : Arrival

pub data Answered : Type 0 where
  validated : Answered
  migrated : ℕ → Answered

pub data Standing : Type 0 where
  proven : Standing
  claimed : Probe → Standing

pub record PathValidator : Type 0 where
  pub current : ℕ
  pub standing : Standing
  pub candidate : Option (ℕ × Candidate)

unfoldable pub dialled : ℕ → PathValidator
dialled peer = record { current = peer; standing = proven; candidate = none }

unfoldable pub claimed_by : ℕ → PathValidator
claimed_by peer = record { current = peer; standing = claimed new_probe; candidate = none }

abbrev pub standing_challengeable : Standing → Bool
standing_challengeable proven = false
standing_challengeable (claimed p) = challengeable p

abbrev pub candidate_challengeable : Option (ℕ × Candidate) → Bool
candidate_challengeable none = false
candidate_challengeable (some (at, c)) = challengeable (probe c)

unfoldable pub is_probing : PathValidator → Bool
is_probing v = standing_challengeable v.standing || candidate_challengeable v.candidate

abbrev pub contradict : Option (ℕ × Candidate) → Option (ℕ × Candidate)
contradict none = none
contradict (some (at, c)) = some (at, contradicted c)

abbrev pub standing_arrived : Standing → ℕ → ℕ → Standing
standing_arrived proven bytes now = proven
standing_arrived (claimed p) bytes now = claimed (probe_arrived p bytes now)

abbrev pub propose : ℕ → ℕ → ℕ → Option (ℕ × Candidate) × Arrival
propose from bytes now = (some (from, proposed (probe_arrived new_probe bytes now)), probing from)

abbrev pub elsewhere : Option (ℕ × Candidate) → ℕ → ℕ → ℕ → Option (ℕ × Candidate) × Arrival
elsewhere none from bytes now = propose from bytes now
elsewhere (some (at, c)) from bytes now =
    if at == from
    then (some (at, candidate_arrived c bytes now), pending)
    else propose from bytes now

unfoldable pub arrived : PathValidator → ℕ → ℕ → ℕ → PathValidator × Arrival
arrived v from bytes now =
    if from == v.current
    then (
      record v {
        candidate = contradict v.candidate;
        standing = standing_arrived v.standing bytes now;
      },
      established,
    )
    else let (next, answer) = elsewhere v.candidate from bytes now in
      (record v { candidate = next }, answer)

-- The challenge of an address in use that is not proven.
abbrev pub challenge_standing : Standing → ℕ → Option ℕ → Standing × Option ℕ
challenge_standing proven now drawn = (proven, none)
challenge_standing (claimed p) now drawn =
    let (q, token) = challenge p now drawn in (claimed q, token)

-- And of a candidate, which is dropped when it has had its chances.
abbrev pub kept_or_dropped :
    ℕ → Candidate → Probe → Option ℕ → Option (ℕ × Candidate) × Option (ℕ × ℕ)
kept_or_dropped at c q (some token) = (some (at, with_probe c q), some (at, token))
kept_or_dropped at c q none =
    (if leb probe_limit q.sent then none else some (at, with_probe c q), none)

abbrev pub challenge_candidate :
    Option (ℕ × Candidate) → ℕ → Option ℕ → Option (ℕ × Candidate) × Option (ℕ × ℕ)
challenge_candidate none now drawn = (none, none)
challenge_candidate (some (at, c)) now drawn =
    let (q, token) = challenge (probe c) now drawn in kept_or_dropped at c q token

abbrev pub challenge_next :
    PathValidator → Standing → ℕ → Option ℕ → Option ℕ → PathValidator × Option (ℕ × ℕ)
challenge_next v s now drawn (some token) = (record v { standing = s }, some (v.current, token))
challenge_next v s now drawn none =
    let (next, sent) = challenge_candidate v.candidate now drawn in
    (record v { standing = s; candidate = next }, sent)

-- The two draws are the one for the address in use and the one for the candidate.
unfoldable pub poll_challenge :
    PathValidator → ℕ → Option ℕ → Option ℕ → PathValidator × Option (ℕ × ℕ)
poll_challenge v now drawn second =
    let (s, token) = challenge_standing v.standing now drawn in challenge_next v s now second token

abbrev pub standing_deadline : Standing → Option ℕ
standing_deadline proven = none
standing_deadline (claimed p) = probe_deadline p

abbrev pub candidate_deadline : Option (ℕ × Candidate) → Option ℕ
candidate_deadline none = none
candidate_deadline (some (at, c)) = probe_deadline (probe c)

abbrev pub earlier : Option ℕ → Option ℕ → Option ℕ
earlier none d = d
earlier (some c) none = some c
earlier (some c) (some d) = some (min c d)

unfoldable pub challenge_deadline : PathValidator → Option ℕ
challenge_deadline v = earlier (standing_deadline v.standing) (candidate_deadline v.candidate)

abbrev pub claimed_probe : Standing → Option Probe
claimed_probe proven = none
claimed_probe (claimed p) = some p

abbrev pub candidate_probe : Option (ℕ × Candidate) → ℕ → Option Probe
candidate_probe none to = none
candidate_probe (some (at, c)) to = if at == to then some (probe c) else none

unfoldable pub unproven : PathValidator → ℕ → Option Probe
unproven v to = if to == v.current then claimed_probe v.standing else candidate_probe v.candidate to

abbrev pub allows : Option Probe → Bool → ℕ → Bool
allows none is_current bytes = is_current
allows (some p) is_current bytes = leb bytes p.credit

unfoldable pub may_send : PathValidator → ℕ → ℕ → Bool
may_send v to bytes = allows (unproven v to) (to == v.current) bytes

abbrev pub charged : Probe → ℕ → Probe
charged p bytes = record p { credit = p.credit - bytes }

abbrev pub standing_spent : Standing → ℕ → Standing
standing_spent proven bytes = proven
standing_spent (claimed p) bytes = claimed (charged p bytes)

abbrev pub candidate_spent : Option (ℕ × Candidate) → ℕ → ℕ → Option (ℕ × Candidate)
candidate_spent none to bytes = none
candidate_spent (some (at, c)) to bytes =
    if at == to then some (at, with_probe c (charged (probe c) bytes)) else some (at, c)

-- `spent` of what `unproven_mut` finds.
unfoldable pub spent : PathValidator → ℕ → ℕ → PathValidator
spent v to bytes =
    if to == v.current
    then record v { standing = standing_spent v.standing bytes }
    else record v { candidate = candidate_spent v.candidate to bytes }

abbrev pub holds_token : Option ℕ → ℕ → Bool
holds_token none token = false
holds_token (some mine) token = mine == token

abbrev pub standing_answers : Standing → ℕ → Bool
standing_answers proven token = false
standing_answers (claimed p) token = holds_token p.token token

abbrev pub candidate_answers : Option (ℕ × Candidate) → ℕ → ℕ → Bool
candidate_answers none from token = false
candidate_answers (some (at, c)) from token = (at == from) && holds_token (probe c).token token

unfoldable pub answered : PathValidator → ℕ → ℕ → PathValidator × Option Answered
answered v from token =
    if (from == v.current) && standing_answers v.standing token
    then (record v { standing = proven }, some validated)
    else if candidate_answers v.candidate from token
    then (record v { candidate = none; current = from; standing = proven }, some (migrated from))
    else (v, none)
