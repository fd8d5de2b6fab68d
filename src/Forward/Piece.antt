-- ===== src/Forward/Piece.antt =====
-- What it is to be a piece of the byte stream that one end writes.
use braid.Prelude.{
  ℕ, ◌+◌, ◌-◌, ◌≤◌, ◌≡◌, sym, ap, ◌∙◌, Bool, true, Option, none, some, List, ◌++◌, append_assoc,
  arith, length, take, drop, length-append, length-take, length-drop,
}
use braid.Prelude.Slices.{
  take-all, take-append_le, drop-append_le, take-add, drop-drop, drop-take, take-take,
}

-- `bytes` are the bytes of `log` from `off` on.
pub record IsPiece (log : List ℕ) (off : ℕ) (bytes : List ℕ) : Type 0 where
  pub inside : off + length bytes ≤ length log
  pub same : bytes ≡ take (length bytes) (drop off log)

-- `taken ++ ready` are the first `next` bytes of `log`.
pub record IsFront (log taken : List ℕ) (next : ℕ) (ready : List ℕ) : Type 0 where
  pub inside : next ≤ length log
  pub same : taken ++ ready ≡ take next log

-- A segment that is a piece of the stream, its end mark where the stream ends.
pub record IsSegment (log : List ℕ) (off : ℕ) (fin : Bool) (bytes : List ℕ) : Type 0 where
  pub piece : IsPiece log off bytes
  pub end : fin ≡ true → off + length bytes ≡ length log

-- A declared end, if any, is the end of the stream.
abbrev pub EndsAt : List ℕ → Option ℕ → Type 0
EndsAt log none = Unit {0}
EndsAt log (some e) = e ≡ length log

-- What a writer appends later moves no piece.
pub IsPiece-append :
    (log more : List ℕ) {off : ℕ} {bytes : List ℕ}
    → IsPiece log off bytes
    → IsPiece (log ++ more) off bytes
IsPiece-append log more {off} {bytes} p = record {
  inside = omega (arith, p.inside, length-append log more);
  same =
      p.same
      ∙ sym (
          take-append_le (length bytes) (drop off log) more
            (omega (arith, p.inside, length-drop off log)))
      ∙ ap (take (length bytes)) (sym (drop-append_le off log more (omega (arith, p.inside))));
}

pub IsFront-append :
    (log more : List ℕ) {taken ready : List ℕ} {next : ℕ}
    → IsFront log taken next ready
    → IsFront (log ++ more) taken next ready
IsFront-append log more {next = next} p = record {
  inside = omega (arith, p.inside, length-append log more);
  same = p.same ∙ sym (take-append_le next log more p.inside);
}

-- The part past `next` of a piece that reaches over it extends the front.
pub IsFront-extend :
    {log taken ready bytes : List ℕ} (next off : ℕ)
    → IsFront log taken next ready
    → IsPiece log off bytes
    → off ≤ next
    → next ≤ off + length bytes
    → IsFront log taken (off + length bytes) (ready ++ drop (next - off) bytes)
IsFront-extend {log} {taken} {ready} {bytes} next off f p h k = record {
  inside = p.inside;
  same =
      sym (append_assoc taken ready (drop (next - off) bytes))
      ∙ ap (λ xs. xs ++ drop (next - off) bytes) f.same
      ∙ ap (λ xs. take next log ++ xs) tail
      ∙ take-add next (off + length bytes - next) (off + length bytes) log (omega arith);
}
  where
    tail : drop (next - off) bytes ≡ take (off + length bytes - next) (drop next log)
    tail =
        ap (drop (next - off)) p.same
        ∙ drop-take (next - off) (length bytes) (drop off log)
        ∙ ap (take (length bytes - (next - off)))
            (drop-drop off (next - off) next log (omega arith))
        ∙ ap (λ n. take n (drop next log)) {x = length bytes - (next - off)}
            {y = off + length bytes - next} (omega arith)

pub IsPiece-take :
    {log bytes : List ℕ} (off n : ℕ) → IsPiece log off bytes → IsPiece log off (take n bytes)
IsPiece-take {log} {bytes} off n p = record {
  inside = omega (arith, p.inside, length-take n bytes);
  same =
      ap (take n) p.same
      ∙ take-take n (length bytes) (drop off log)
      ∙ ap (λ k. take k (drop off log)) (sym (length-take n bytes));
}

-- The offset of the later piece is a variable with an equation.
pub IsPiece-drop :
    {log bytes : List ℕ} (off k off' : ℕ)
    → IsPiece log off bytes
    → k ≤ length bytes
    → off + k ≡ off'
    → IsPiece log off' (drop k bytes)
IsPiece-drop {log} {bytes} off k off' p h e = record {
  inside = omega (arith, p.inside, length-drop k bytes);
  same =
      ap (drop k) p.same
      ∙ drop-take k (length bytes) (drop off log)
      ∙ ap (take (length bytes - k)) (drop-drop off k off' log e)
      ∙ ap (λ m. take m (drop off' log)) (sym (length-drop k bytes));
}

-- What is left of the stream from `off` on.
pub IsPiece-rest : (log : List ℕ) (off : ℕ) → off ≤ length log → IsPiece log off (drop off log)
IsPiece-rest log off h = record {
  inside = omega (arith, length-drop off log);
  same = sym (take-all (length (drop off log)) (drop off log) (omega arith));
}
