-- ===== src/Server/Gate/Tests.antt =====
-- crates/server/src/gate.rs: the gate on a concrete client.
use braid.Prelude.{◌≡◌, refl, true, some, from_secs}
use braid.Server.Gate.{datagram, caught_up, may_return_to_passthrough}

-- The last output was a second ago, which is the quiescence asked for.
quiet_returns :
    may_return_to_passthrough
      (datagram true 200_000)
      (from_secs 8)
      (some (from_secs 7))
      (from_secs 1)
    ≡ true
unfolding may_return_to_passthrough caught_up
quiet_returns = refl
