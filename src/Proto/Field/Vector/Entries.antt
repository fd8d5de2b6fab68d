-- ===== src/Proto/Field/Vector/Entries.antt =====
-- Session names, search matches and acknowledged runs keep the laws of a field.
use braid.Prelude.{◌+◌, ◌*◌, ◌≡◌, refl, false, some, List, [], ◌∷◌, arith, ltb, length, Bytes}
use braid.Proto.Laws.{
  Trips, Extends, Costs, Trips-seq, Trips-end, Trips-before, Extends-seq, Trips-nothing,
  Trips-or_fail, Trips-reject_if, Trips-refuse_if, Extends-pure, Extends-or_fail, Extends-reject_if,
  Costs-seq, Costs-refuse_if, Costs-more,
}
use braid.Proto.Laws.Words.{
  Trips-u8, Trips-array, Trips-u16, Trips-u32, Extends-u8, Extends-array, Extends-u16, Extends-u32,
  Costs-u8, Costs-u16, Costs-u32,
}
use braid.Proto.Values.{IsU32, IsNonZero32, IsArray}
use braid.Proto.Field.{IsLawful}
use braid.Proto.Field.Str.{name_field}
use braid.Proto.Field.Str.Lawful.{
  IsString, Trips-str, Extends-str, Extends-reject_control, Trips-reject_control, Costs-written_all,
  name_field-IsLawful,
}
use braid.Proto.Field.Struct.Lawful.{Costs-array, non_zero-some}
use braid.Proto.Field.Vector.{
  sum, SessionName, put_named, get_named, names_field, SearchMatch, put_match, get_match,
  matches_field, put_run, get_run, sack_field,
}
use braid.Proto.Field.Vector.Lawful.{
  All, Trips-repeat, Extends-repeat, Costs-each, list_field-IsLawful,
}
use braid.Forward.Wire.{max_ack_runs, SackRun, sack_runs}

abbrev pub IsSessionName : SessionName → Type 0
IsSessionName n = IsArray 16 n.session_id × IsString n.name

Trips-named : (n : SessionName) → IsSessionName n → Trips (put_named n) get_named n
unfolding put_named get_named
Trips-named n h = Trips-refuse_if _ _ (λ valid.
    Trips-seq _ (Trips-array n.session_id 16 h.0)
      (Trips-end _ (name_field-IsLawful.trips n.name h.1) (Trips-reject_if _ valid Trips-nothing)))

Extends-named : Extends get_named
unfolding get_named
Extends-named =
    Extends-seq (Extends-array 16) (λ id.
      Extends-seq name_field-IsLawful.extends (λ name. Extends-reject_if _ _ (Extends-pure _)))

name_hint : (v : Bytes) → name_field.hint v ≡ 1 + length v
unfolding name_field
name_hint v = refl

Costs-named : (n : SessionName) → IsSessionName n → Costs (put_named n) (17 + length n.name)
unfolding put_named
Costs-named n h =
    Costs-more
      (Costs-refuse_if _ _
        (Costs-seq (Costs-array 16 n.session_id h.0) (name_field-IsLawful.costs n.name h.1)))
      (omega (arith, name_hint n.name))

pub names_field-IsLawful : IsLawful names_field (All IsSessionName)
unfolding names_field
names_field-IsLawful = list_field-IsLawful _ _ _ _ _ Trips-named Extends-named Costs-named

abbrev pub IsSearchMatch : SearchMatch → Type 0
IsSearchMatch m = IsArray 16 m.session_id × IsU32 m.distance × IsString m.line

Trips-match : (m : SearchMatch) → IsSearchMatch m → Trips (put_match m) get_match m
unfolding put_match get_match
Trips-match m h = Trips-refuse_if _ _ (λ valid. Trips-seq _ (Trips-array m.session_id 16 h.0) (
    Trips-seq _ (Trips-u32 m.distance h.1) (
      Trips-refuse_if _ _ (λ narrow. Trips-seq _ (Trips-u16 (length m.line) (ground arith)) (
        Trips-reject_if _ (ground arith) (
          Trips-end _ (Trips-str m.line (length m.line) refl h.2)
            (Trips-reject_control m.line (ground arith) Trips-nothing)))))))

Extends-match : Extends get_match
unfolding get_match
Extends-match = Extends-seq (Extends-array 16) (λ id. Extends-seq Extends-u32 (λ distance.
    Extends-seq Extends-u16 (λ len.
      Extends-reject_if _ _
        (Extends-seq (Extends-str len) (λ s. Extends-reject_control s (Extends-pure _))))))

Costs-match : (m : SearchMatch) → IsSearchMatch m → Costs (put_match m) (24 + length m.line)
unfolding put_match
Costs-match m h =
    Costs-more
      (Costs-refuse_if _ _ (
        Costs-seq (Costs-array 16 m.session_id h.0) (
          Costs-seq (Costs-u32 _)
            (Costs-refuse_if _ _ (Costs-seq (Costs-u16 _) (Costs-written_all m.line))))))
      (omega arith)

pub matches_field-IsLawful : IsLawful matches_field (All IsSearchMatch)
unfolding matches_field
matches_field-IsLawful = list_field-IsLawful _ _ _ _ _ Trips-match Extends-match Costs-match

abbrev pub IsSackRun : SackRun → Type 0
IsSackRun run = IsNonZero32 run.gap × IsNonZero32 run.len

Trips-run : (run : SackRun) → IsSackRun run → Trips (put_run run) get_run run
unfolding put_run get_run
Trips-run run h = Trips-seq _ (Trips-u32 run.gap (h.0).1) (
    Trips-before _ (Trips-or_fail _ (non_zero-some run.gap (h.0).0)) (
      Trips-end _ (Trips-u32 run.len (h.1).1)
        (Trips-before _ (Trips-or_fail _ (non_zero-some run.len (h.1).0)) Trips-nothing)))

Extends-run : Extends get_run
unfolding get_run
Extends-run = Extends-seq Extends-u32 (λ stated. Extends-seq (Extends-or_fail _ _) (λ gap.
    Extends-seq Extends-u32 (λ named. Extends-seq (Extends-or_fail _ _) (λ len. Extends-pure _))))

pub Costs-run : (run : SackRun) → IsSackRun run → Costs (put_run run) 8
unfolding put_run
Costs-run run h = Costs-seq (Costs-u32 _) (Costs-u32 _)

pub sum-const : (runs : List SackRun) → sum (λ run. 8) runs ≡ 8 * length runs
unfolding sum
sum-const [] = omega arith
sum-const (run ∷ runs) = omega (arith, sum-const runs)

sack_runs-some :
    (runs : List SackRun) → ltb max_ack_runs (length runs) ≡ false → sack_runs runs ≡ some runs
unfolding sack_runs
sack_runs-some runs h = ground arith

pub sack_field-IsLawful : IsLawful sack_field (All IsSackRun)
unfolding sack_field
sack_field-IsLawful = record {
  trips = λ runs h. Trips-refuse_if _ _ (λ narrow. Trips-refuse_if _ _ (λ few.
      Trips-seq _ (Trips-u8 (length runs)) (
        Trips-reject_if _ few (
          Trips-end _ (Trips-repeat put_run get_run IsSackRun Trips-run runs h)
            (Trips-or_fail _ (sack_runs-some runs few))))));
  extends = Extends-seq Extends-u8 (λ count. Extends-reject_if _ _ (
      Extends-seq (Extends-repeat put_run get_run IsSackRun Extends-run count)
        (λ runs. Extends-or_fail _ _)));
  costs = λ runs h.
      Costs-more
        (Costs-refuse_if _ _ (
          Costs-refuse_if _ _
            (Costs-seq (Costs-u8 _) (Costs-each put_run IsSackRun _ Costs-run runs h))))
        (omega (arith, sum-const runs));
}
