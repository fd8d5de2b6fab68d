-- ===== src/Forward/Link/Grow.antt =====
-- crates/forward: what writing more leaves true of the wire and of the far end.
use braid.Prelude.{
  ℕ, ◌≡◌, sym, ap, ◌∙◌, inl, inr, Bool, true, false, none, some, List, [], ◌∷◌, ◌++◌, arith,
  Bool-cases, length, length-append,
}
use braid.Prelude.Slices.{take-append_le}
use braid.Forward.Wire.{Segment}
use braid.Forward.Piece.{IsSegment, IsPiece-append}
use braid.Forward.Recv.Pieces.{Parts}
use braid.Forward.Recv.Deliver.{Delivers}
use braid.Forward.Link.{On}
use braid.Forward.Recv.{Receiver}

abbrev pub Segments : List ℕ → List (Segment × List ℕ) → Type 0
Segments log [] = Unit {0}
Segments log ((g, bytes) ∷ rest) = IsSegment log g.off g.fin bytes × Segments log rest

abbrev pub NoEnds : List (Segment × List ℕ) → Type 0
NoEnds [] = Unit {0}
NoEnds ((g, bytes) ∷ rest) = (g.fin ≡ false) × NoEnds rest

pub IsSegment-append :
    (log more : List ℕ) {off : ℕ} {fin : Bool} {bytes : List ℕ}
    → fin ≡ false
    → IsSegment log off fin bytes
    → IsSegment (log ++ more) off fin bytes
IsSegment-append log more f s = record { piece = IsPiece-append log more s.piece; end = λ e. cc }

pub Segments-append :
    (log more : List ℕ) (wire : List (Segment × List ℕ))
    → NoEnds wire
    → Segments log wire
    → Segments (log ++ more) wire
Segments-append log more [] n s = tt
Segments-append log more ((g, bytes) ∷ rest) n s =
    (IsSegment-append log more n.0 s.0, Segments-append log more rest n.1 s.1)

Parts-append :
    (log more : List ℕ) (held : List (ℕ × List ℕ)) → Parts log held → Parts (log ++ more) held
Parts-append log more [] p = tt
Parts-append log more ((off, h) ∷ rest) p =
    (IsPiece-append log more p.0, Parts-append log more rest p.1)

pub Delivers-append :
    (log more taken : List ℕ) (r : Receiver)
    → r.fin ≡ none
    → Delivers log taken r
    → Delivers (log ++ more) taken r
Delivers-append log more taken r f v = elim (Bool-cases r.finished) [
  | inl done ↦ absurd (closed (v.declared done))
  | inr going ↦ record {
    same = v.same ∙ sym (take-append_le r.next log more (v.while_open going));
    while_open = λ e. omega (arith, v.while_open going, length-append log more);
    when_closed = λ e. absurd (both e going);
    declared = λ e. absurd (both e going);
    ends = rw f tt;
    parts = Parts-append log more r.held v.parts;
    clean = v.clean;
  }
]
  where
    closed : r.fin ≡ some (length log) → ⊥
    closed e = cc

    both : r.finished ≡ true → r.finished ≡ false → ⊥
    both e g = cc

pub find_segment :
    (log : List ℕ) (g : Segment) (bytes : List ℕ) (wire : List (Segment × List ℕ))
    → On (g, bytes) wire
    → Segments log wire
    → IsSegment log g.off g.fin bytes
find_segment log g bytes [] o s = absurd o
find_segment log g bytes ((h, b) ∷ rest) (inl e) s = rw (ap (λ p. p.0) e, ap (λ p. p.1) e) s.0
find_segment log g bytes ((h, b) ∷ rest) (inr o) s = find_segment log g bytes rest o s.1

pub no_end_of :
    (g : Segment) (bytes : List ℕ) (wire : List (Segment × List ℕ))
    → On (g, bytes) wire
    → NoEnds wire
    → g.fin ≡ false
no_end_of g bytes [] o n = absurd o
no_end_of g bytes ((h, b) ∷ rest) (inl e) n = ap (λ p. p.0.fin) e ∙ n.0
no_end_of g bytes ((h, b) ∷ rest) (inr o) n = no_end_of g bytes rest o n.1
