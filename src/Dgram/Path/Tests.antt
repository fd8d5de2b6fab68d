-- ===== src/Dgram/Path/Tests.antt =====
-- The path of crates/dgram/src/path.rs on a concrete move.
use braid.Prelude.{◌+◌, ◌*◌, ◌≤◌, ◌≡◌, refl, ◌≢◌, none, some, List, [], ◌∷◌, arith}
use braid.Dgram.Path.{
  amplification_limit, probe_limit, earned, probe_arrived, probe_deadline, challenge, dialled,
  arrived, poll_challenge, unproven, may_send, spent, answered,
}
use braid.Dgram.Path.History.{
  Event, arrive, send, poll, answer, History, sent_to, step, run, dialling, start,
}
use braid.Dgram.Path.Amplify.{never-amplifies}
use braid.Dgram.Path.Move.{IsAnswer, moved-IsAnswer}
use braid.Dgram.Path.Silence.{is_silent, silent-challenges}

-- The peer at 1 is heard from at 2, which is challenged with 77, given 100 bytes and answers.
abbrev a_move : List Event
a_move =
    arrive 1 50 0
    ∷ arrive 2 40 1_000
    ∷ poll 2_000 (some 77) (some 77)
    ∷ send 2 100
    ∷ send 2 100
    ∷ answer 3 77
    ∷ answer 2 77
    ∷ []

moved_to_2 : (run (start dialling 1) a_move).path.current ≡ 2
unfolding run step arrived earned probe_arrived poll_challenge challenge probe_deadline spent
    sent_to may_send unproven answered dialled
moved_to_2 = refl

-- The second hundred bytes were not paid for.
sent_100 : (run (start dialling 1) a_move).out 2 ≡ 100
unfolding run step arrived earned probe_arrived poll_challenge challenge probe_deadline spent
    sent_to may_send unproven answered dialled
sent_100 = refl

-- What goes to the peer that was dialled needs no proof, and goes uncounted.
to_1 : (run (start dialling 1) (send 1 1_000 ∷ [])).out 1 ≡ 0
unfolding run step sent_to may_send unproven spent dialled
to_1 = refl

never-amplifies_example :
    (run (start dialling 1) a_move).out 2
    ≤ amplification_limit * (run (start dialling 1) a_move).got 2
never-amplifies_example = never-amplifies dialling 1 a_move 2

-- While the address in use talks, the one at 2 is silent, and polled more often than it has chances.
abbrev polls : List Event
polls =
    poll 300_000_000 none (some 5)
    ∷ arrive 1 50 400_000_000
    ∷ poll 600_000_000 none (some 5)
    ∷ poll 900_000_000 none (some 5)
    ∷ arrive 1 50 1_000_000_000
    ∷ poll 1_200_000_000 none (some 5)
    ∷ []

asked_4 : (run (run (start dialling 1) (arrive 2 40 1_000 ∷ [])) polls).asked 2 ≡ 4
unfolding run step arrived earned probe_arrived poll_challenge challenge probe_deadline dialled
asked_4 = refl

silent-challenges_example :
    (run (run (start dialling 1) (arrive 2 40 1_000 ∷ [])) polls).asked 2
    ≤ (run (start dialling 1) (arrive 2 40 1_000 ∷ [])).asked 2 + probe_limit
unfolding is_silent
silent-challenges_example = silent-challenges dialling 1 (arrive 2 40 1_000 ∷ []) polls 2 refl

abbrev approach : List Event
approach = arrive 2 40 1_000 ∷ poll 2_000 none (some 77) ∷ []

abbrev challenged : History
challenged = run (start dialling 1) approach

challenged_moves : (step challenged (answer 2 77)).path.current ≢ challenged.path.current
unfolding run step arrived earned probe_arrived poll_challenge challenge probe_deadline answered
    dialled
challenged_moves e = omega (arith, e)

moved-IsAnswer_example :
    IsAnswer challenged (step challenged (answer 2 77)).path.current (answer 2 77)
moved-IsAnswer_example = moved-IsAnswer dialling 1 approach (answer 2 77) challenged_moves
