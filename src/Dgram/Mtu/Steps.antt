-- ===== src/Dgram/Mtu/Steps.antt =====
-- crates/dgram/src/mtu.rs: what a connection may ask of the search, as a sequence of calls.
use braid.Prelude.{ℕ, List, [], ◌∷◌}
use braid.Dgram.Mtu.{
  Mtu, proven, migrated, poll, probing, acknowledged, lost, silent, forgotten, refused,
}

pub data Call : Type 0 where
  proves : Call
  migrates : Call
  polls : (now : ℕ) → Call
  probes : (number : ℕ) → Call
  arrives : (number bytes : ℕ) → Call
  loses : (number bytes now : ℕ) → Call
  hears_nothing : (number bytes now : ℕ) → Call
  forgets : (number now : ℕ) → Call
  refuses : (carries now : ℕ) → Call

unfoldable pub apply : Mtu → Call → Mtu
apply m proves = proven m
apply m migrates = migrated m
apply m (polls now) = (poll m now).0
apply m (probes number) = probing m number
apply m (arrives number bytes) = acknowledged m number bytes
apply m (loses number bytes now) = lost m number bytes now
apply m (hears_nothing number bytes now) = silent m number bytes now
apply m (forgets number now) = forgotten m number now
apply m (refuses carries now) = refused m carries now

unfoldable pub run : Mtu → List Call → Mtu
run m [] = m
run m (c ∷ cs) = run (apply m c) cs
