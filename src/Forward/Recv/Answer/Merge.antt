-- ===== src/Forward/Recv/Answer/Merge.antt =====
-- crates/forward/src/recv.rs: the walk that merges held segments into runs covers only held bytes.
use braid.Prelude.{
  ℕ, ◌+◌, ◌-◌, ◌≤◌, ◌<◌, max, ◌≡◌, refl, ◌⊎◌, inl, inr, not, ◌&&◌, Option, none, some, List, [],
  ◌∷◌, ◌++◌, arith, ltb, leb, ◌==◌, ltb→lt, leb→le, Bool-cases, length, u32_max, u64_max,
  saturating_add,
}
use braid.Forward.Wire.{max_ack_runs, SackRun, absolute}
use braid.Forward.Recv.{Held, Receiver}
use braid.Forward.Recv.Answer.{
  push_run, Walk, close_run, extend_open, extend_run, merge, close_last, last_run,
}

abbrev pub CoveredAt : ℕ → Held → Type 0
CoveredAt x [] = ⊥
CoveredAt x ((o, h) ∷ rest) = ((o ≤ x) × (x < o + length h)) ⊎ CoveredAt x rest

-- Every byte of `[start, end)` is held.
pub record Covers (held : Held) (start end : ℕ) : Type 0 where
  pub at : (x : ℕ) → start ≤ x → x < end → CoveredAt x held

abbrev pub AllCovered : Held → List (ℕ × ℕ) → Type 0
AllCovered held [] = Unit {0}
AllCovered held ((s, e) ∷ rest) = Covers held s e × AllCovered held rest

abbrev OpenCovered : Held → Option (ℕ × ℕ) → Type 0
OpenCovered held none = Unit {0}
OpenCovered held (some (s, e)) = Covers held s e × (e ≤ u64_max)

runs_end : ℕ → List SackRun → ℕ
runs_end c [] = c
runs_end c (run ∷ runs) = runs_end (saturating_add (saturating_add c run.gap) run.len) runs

AllCovered-push :
    (held : Held) (runs : List SackRun) (c start end : ℕ) (run : SackRun)
    → AllCovered held (absolute c runs)
    → saturating_add (runs_end c runs) run.gap ≡ start
    → saturating_add start run.len ≡ end
    → Covers held start end
    → AllCovered held (absolute c (runs ++ (run ∷ []))) × (runs_end c (runs ++ (run ∷ [])) ≡ end)
unfolding absolute runs_end
AllCovered-push held [] c start end run a p q v = (rw (p, q) (v, tt), rw (p, q))
AllCovered-push held (r ∷ runs) c start end run a p q v =
    let (b, e) =
      AllCovered-push held runs (saturating_add (saturating_add c r.gap) r.len) start end run a.1 p
        q v in
    ((a.0, b), e)

-- The state of the walk from `c` over a map whose every entry is in `held`.
record Walked (held : Held) (c : ℕ) (w : Walk) : Type 0 where
  covered : AllCovered held (absolute c w.runs)
  cursor : runs_end c w.runs ≡ w.cursor
  current : OpenCovered held w.open_run

close_run-Walked :
    (held : Held) (c s e : ℕ) (w : Walk)
    → Walked held c w
    → Covers held s e
    → e ≤ u64_max
    → AllCovered held (absolute c (close_run w (s, e)).runs)
      × (runs_end c (close_run w (s, e)).runs ≡ (close_run w (s, e)).cursor)
unfolding close_run push_run
close_run-Walked held c s e w v k le =
    elim (Bool-cases (leb gap u32_max && leb len u32_max && not (gap == 0) && not (len == 0))) [
      | inl kept ↦
          let fits : (w.cursor < s) × (s < e) = ground arith in
          rw kept (
            AllCovered-push held w.runs c s e (record { gap = gap; len = len }) v.covered
              (rw v.cursor (omega arith)) (omega arith) k)
      | inr dropped ↦ rw dropped (v.covered, v.cursor)
    ]
  where
    gap : ℕ
    gap = s - w.cursor

    len : ℕ
    len = e - s

Covers-max :
    (held : Held) (start seen off end : ℕ)
    → Covers held start seen
    → Covers held off end
    → off ≤ seen
    → Covers held start (max seen end)
Covers-max held start seen off end v u le = record {
  at = λ x p q. elim (Bool-cases (ltb x seen)) [
    | inl in_seen ↦ v.at x p (ltb→lt x seen in_seen)
    | inr past ↦ u.at x (ground arith) (ground arith)
  ];
}

extend_open-Walked :
    (held : Held) (c off end : ℕ) (w : Walk) (o : Option (ℕ × ℕ))
    → OpenCovered held o
    → Walked held c w
    → Covers held off end
    → end ≤ u64_max
    → Walked held c (extend_open w o off end)
unfolding extend_open
extend_open-Walked held c off end w none cur v k le = record {
  covered = v.covered;
  cursor = v.cursor;
  current = (k, le);
}
extend_open-Walked held c off end w (some (start, seen)) cur v k le =
    elim (Bool-cases (leb off seen)) [
      | inl touch ↦ rw touch (record {
        covered = v.covered;
        cursor = v.cursor;
        current = (
          Covers-max held start seen off end cur.0 k (leb→le off seen touch),
          omega (arith, cur.1),
        );
      })
      | inr gap ↦
          let (cov, cursor') = close_run-Walked held c start seen w v cur.0 cur.1 in
          rw gap (record { covered = cov; cursor = cursor'; current = (k, le) })
    ]

extend_run-Walked :
    (held : Held) (c off end : ℕ) (w : Walk)
    → Walked held c w
    → Covers held off end
    → end ≤ u64_max
    → Walked held c (extend_run w off end)
unfolding extend_run
extend_run-Walked held c off end w v = extend_open-Walked held c off end w w.open_run v.current v

-- `rest` is what is left of the map `held`.
merge-Walked :
    (held rest : Held) (c : ℕ) (w : Walk)
    → ((x : ℕ) → CoveredAt x rest → CoveredAt x held)
    → Walked held c w
    → Walked held c (merge rest w)
unfolding merge
merge-Walked held [] c w within v = v
merge-Walked held ((off, h) ∷ rest) c w within v =
    elim (Bool-cases
      (length (extend_run w off (saturating_add off (length h))).runs == max_ack_runs)) [
        | inl stop ↦ rw stop next
        | inr go ↦ rw go (merge-Walked held rest c _ (λ x a. within x (inr a)) next)
      ]
  where
    next : Walked held c (extend_run w off (saturating_add off (length h)))
    next =
        extend_run-Walked held c off (saturating_add off (length h)) w v
          (record { at = λ x p q. within x (inl (p, omega arith)) }) (omega arith)

close_last-covered :
    (held : Held) (c : ℕ) (w : Walk) (o : Option (ℕ × ℕ))
    → OpenCovered held o
    → Walked held c w
    → AllCovered held (absolute c (close_last w o).runs)
unfolding close_last
close_last-covered held c w none cur v = v.covered
close_last-covered held c w (some (s, e)) cur v =
    elim (Bool-cases (ltb (length w.runs) max_ack_runs)) [
      | inl room ↦ rw room (close_run-Walked held c s e w v cur.0 cur.1).0
      | inr full ↦ rw full v.covered
    ]

abbrev pub walked : Receiver → Walk
walked r = merge r.held (record { runs = []; cursor = r.next; open_run = none })

pub walked-covered : (r : Receiver) → AllCovered r.held (absolute r.next (last_run (walked r)).runs)
unfolding last_run absolute runs_end
walked-covered r =
    let v =
      merge-Walked r.held r.held r.next _ (λ x a. a)
        (record { covered = tt; cursor = refl; current = tt }) in
    close_last-covered r.held r.next (walked r) (walked r).open_run v.current v
