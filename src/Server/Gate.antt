-- ===== src/Server/Gate.antt =====
-- crates/server/src/gate.rs: when a session may go back from whole screens to the byte stream.
mod Tests
use braid.Prelude.{
  ℕ, ◌-◌, ◌*◌, ◌/◌, ◌≤◌, ◌≡◌, inl, inr, Bool, true, ◌&&◌, ◌||◌, Option, arith, leb, Option-cases,
  is_none_or,
}

-- `STREAM_LIMIT` of crates/server/src/sink.rs.
abbrev pub stream_limit : ℕ
stream_limit = 256 * 1024

abbrev pub datagram_window : ℕ
datagram_window = stream_limit / 2

pub data CatchUp : Type 0 where
  stream : (drained : Bool) → CatchUp
  datagram : (drained : Bool) (outstanding : ℕ) → CatchUp

pub caught_up : CatchUp → Bool
caught_up (stream drained) = drained
caught_up (datagram drained outstanding) = drained && leb outstanding datagram_window

pub may_return_to_passthrough : CatchUp → ℕ → Option ℕ → ℕ → Bool
may_return_to_passthrough c now last_output quiescence =
    caught_up c || is_none_or last_output (λ last. leb quiescence (now - last))

-- While no more output comes and the client falls no further behind, a session that may go back may
-- still go back later.
may_return_mono :
    (c : CatchUp) (now later : ℕ) (last_output : Option ℕ) (quiescence : ℕ)
    → now ≤ later
    → may_return_to_passthrough c now last_output quiescence ≡ true
    → may_return_to_passthrough c later last_output quiescence ≡ true
unfolding may_return_to_passthrough
may_return_mono c now later last_output quiescence le e = elim (Option-cases last_output) [
  | inl silent ↦ ground (arith, silent)
  | inr (last, spoken) ↦ ground (arith, spoken)
]
