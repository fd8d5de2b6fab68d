-- ===== src/Dgram/Congestion/Episode.antt =====
-- crates/dgram/src/congestion.rs: one episode of losses, and the proof that it was none.
use braid.Prelude.{
  ℕ, ◌-◌, ◌*◌, ◌/◌, ◌≤◌, ◌<◌, min, max, ◌≡◌, refl, ap, ◌∙◌, true, false, none, some, List, [], ◌∷◌,
  arith, ltb, is_some_and,
}
use braid.Dgram.Congestion.{
  min_datagrams, Congestion, minimum, ceiling, remember, halve, lost, restore, spurious,
}

-- Losses of one flight: the bytes of each packet and when it was sent.
pub lose_all : Congestion → List (ℕ × ℕ) → ℕ → Congestion
lose_all c [] now = c
lose_all c ((bytes, sent) ∷ rest) now = lose_all (lost c bytes sent now) rest now

abbrev pub AllBefore : ℕ → List (ℕ × ℕ) → Type 0
AllBefore start [] = Unit {0}
AllBefore start ((bytes, sent) ∷ rest) = (sent < start) × AllBefore start rest

record SameWindow (c d : Congestion) : Type 0 where
  window : d.window ≡ c.window
  ssthresh : d.ssthresh ≡ c.ssthresh
  recovery : d.recovery_start ≡ c.recovery_start
  undo : d.undo ≡ c.undo
  size : d.datagram ≡ c.datagram

lose_all-SameWindow :
    (c : Congestion) (start : ℕ) (losses : List (ℕ × ℕ)) (now : ℕ)
    → c.recovery_start ≡ some start
    → AllBefore start losses
    → SameWindow c (lose_all c losses now)
unfolding lose_all lost
lose_all-SameWindow c start [] now e h = record {
  window = refl;
  ssthresh = refl;
  recovery = refl;
  undo = refl;
  size = refl;
}
lose_all-SameWindow c start ((bytes, sent) ∷ rest) now e h =
    let echo : is_some_and c.recovery_start (λ s. ltb sent s) ≡ true = ground arith in
    let later =
      lose_all-SameWindow (record c { in_flight = c.in_flight - bytes }) start rest now e h.1 in
    rw echo (record {
      window = later.window;
      ssthresh = later.ssthresh;
      recovery = later.recovery;
      undo = later.undo;
      size = later.size;
    })

lost-halve :
    (c : Congestion) (bytes sent now : ℕ)
    → c.recovery_start ≡ none
    → lost c bytes sent now ≡ halve (record c { in_flight = c.in_flight - bytes }) now
unfolding lost
lost-halve c bytes sent now e =
    let news : is_some_and c.recovery_start (λ s. ltb sent s) ≡ false = ground arith in rw news refl

minimum-min : (c : Congestion) → minimum c ≡ min (c.datagram * min_datagrams) c.window
minimum-min c = ground arith

minimum_le : (c : Congestion) → minimum c ≤ c.window
minimum_le c = ground arith

-- Outside a recovery, and with a window of at most 512 datagrams, a flight that is lost together cuts
-- the window once: to half, or to two datagrams where that is more, while a window that is below two
-- datagrams already stays as it is. Of the flight each packet was sent before the first loss was
-- found. The proof that the first of the losses was a mistake gives the whole window back, and no
-- less of the threshold than there was.
pub episode-undone :
    (c : Congestion) (bytes sent now : ℕ) (losses : List (ℕ × ℕ)) (later : ℕ)
    → c.recovery_start ≡ none
    → c.window ≤ ceiling c
    → AllBefore now losses
    → let d = lose_all (lost c bytes sent now) losses later in
      (d.window ≡ max (c.window / 2) (min (c.datagram * min_datagrams) c.window))
      × ((spurious d).window ≡ c.window)
      × (c.ssthresh ≤ (spurious d).ssthresh)
unfolding spurious restore halve remember
episode-undone c bytes sent now losses later e h before =
    let same =
      lose_all-SameWindow (halve (record c { in_flight = c.in_flight - bytes }) now) now losses
        later refl before in
    rw (lost-halve c bytes sent now e) (
      same.window ∙ ap (max (c.window / 2)) (minimum-min c),
      rw (same.undo) (
          omega (
            arith,
            same.window,
            same.size,
            minimum_le (record c { in_flight = c.in_flight - bytes }),
          )),
      rw (same.undo) (omega (arith, same.ssthresh)),
    )
