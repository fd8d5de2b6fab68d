-- ===== src/Proto/Laws.antt =====
-- What an encoder and a decoder of crates/proto/src/lib.rs owe each other, and the rules by which
-- the fields of a message keep it one after another.
pub mod Words
use mathlib.Core.Path.{subst}
use braid.Prelude.{
  ℕ, ◌+◌, ◌≤◌, ◌≡◌, refl, sym, ap, ◌∙◌, Bool, true, false, List, [], ◌∷◌, ◌++◌, Option, none, some,
  append_assoc, length, length-append, if◌then◌else◌, arith, Bytes,
}
use braid.Proto.Outcome.{DecodeError, EncodeError, Result, ok, err}
use braid.Proto.Cursor.{
  Written, Decoder, appended, continue, ◌<+>◌, written, refuse_if, ◌>>=◌, ◌>>◌, pure, fail,
  reject_if, or_fail,
}

-- What is written is read back, whatever bytes come after it.
pub record Trips {A : Type 0} (w : Written) (get : Decoder A) (v : A) : Type 0 where
  pub trip : (e : Bytes) → w ≡ ok e → (rest : Bytes) → get (e ++ rest) ≡ ok (v, rest)

-- More bytes at the end change nothing of what was read.
pub record Extends {A : Type 0} (get : Decoder A) : Type 0 where
  pub extend :
      (c : Bytes) (v : A) (rest more : Bytes)
      → get c ≡ ok (v, rest)
      → get (c ++ more) ≡ ok (v, rest ++ more)

-- What is written is no longer than it was said to be.
pub record Costs (w : Written) (hint : ℕ) : Type 0 where
  pub cost : (e : Bytes) → w ≡ ok e → length e ≤ hint

-- Inversion of `<+>`.
<+>-ok :
    (w z : Written) (e : Bytes)
    → w <+> z ≡ ok e
    → (a : Bytes) × (b : Bytes) × (w ≡ ok a) × (z ≡ ok b) × (a ++ b ≡ e)
unfolding ◌<+>◌
<+>-ok (ok a) (ok b) e h = (a, b, refl, refl, grind arith)
<+>-ok (ok a) (err x) e h = cc
<+>-ok (err x) z e h = cc

<+>-assoc : (w y z : Written) → (w <+> y) <+> z ≡ w <+> (y <+> z)
unfolding ◌<+>◌
<+>-assoc (ok a) (ok b) (ok c) = ap ok (append_assoc a b c)
<+>-assoc (ok a) (ok b) (err e) = refl
<+>-assoc (ok a) (err e) z = refl
<+>-assoc (err e) y z = refl

module _ {A B : Type 0} where
  pub Trips-seq :
      {w z : Written} {m : Decoder A} (f : A → Decoder B) {a : A} {b : B}
      → Trips w m a
      → Trips z (f a) b
      → Trips (w <+> z) (m >>= f) b
  unfolding ◌>>=◌
  Trips-seq {w} {z} {m} f {a} {b} first second = record {
    trip = λ e h rest.
        let (x, y, hx, hy, join) = <+>-ok w z e h in
        ap (λ s. continue (m (s ++ rest)) f) (sym join)
        ∙ ap (λ s. continue (m s) f) (append_assoc x y rest)
        ∙ ap (λ r. continue r f) (first.trip x hx (y ++ rest))
        ∙ second.trip y hy rest;
  }

  -- The last field: what is built of it is what was written.
  pub Trips-last :
      {w : Written} {m : Decoder A} (f : A → B) {a : A}
      → Trips w m a
      → Trips w (m >>= λ x. pure (f x)) (f a)
  unfolding ◌>>=◌ pure
  Trips-last {w} {m} f {a} last = record {
    trip = λ e h rest. ap (λ r. continue r (λ x c. ok (f x, c))) (last.trip e h rest);
  }

  -- Checks after the last read write nothing.
  pub Trips-end :
      {w : Written} {m : Decoder A} (f : A → Decoder B) {a : A} {b : B}
      → Trips w m a
      → Trips (written []) (f a) b
      → Trips w (m >>= f) b
  unfolding ◌>>=◌ written
  Trips-end {w} {m} f {a} {b} first checks = record {
    trip = λ e h rest. ap (λ r. continue r f) (first.trip e h rest) ∙ checks.trip [] refl rest;
  }

  -- And so do checks between reads.
  pub Trips-before :
      {z : Written} {m : Decoder A} (f : A → Decoder B) {a : A} {b : B}
      → Trips (written []) m a
      → Trips z (f a) b
      → Trips z (m >>= f) b
  unfolding ◌>>=◌ written
  Trips-before {z} {m} f {a} {b} checks second = record {
    trip =
        λ e h rest. ap (λ r. continue r f) (checks.trip [] refl (e ++ rest)) ∙ second.trip e h rest;
  }

  pub Extends-seq :
      {m : Decoder A} {f : A → Decoder B}
      → Extends m
      → ((a : A) → Extends (f a))
      → Extends (m >>= f)
  unfolding ◌>>=◌
  Extends-seq {m} {f} first second = record {
    extend = λ c v rest more h. Extends-continue c v rest more (m c) refl h;
  }
    where
      Extends-continue :
          (c : Bytes) (v : B) (rest more : Bytes) (r : Result DecodeError (A × Bytes))
          → m c ≡ r
          → continue r f ≡ ok (v, rest)
          → continue (m (c ++ more)) f ≡ ok (v, rest ++ more)
      Extends-continue c v rest more (ok (a, c')) e h =
          ap (λ r. continue r f) (first.extend c a c' more e) ∙ (second a).extend c' v rest more h
      Extends-continue c v rest more (err x) e h = cc

module _ {A : Type 0} where
  pub Trips-nothing : {v : A} → Trips (written []) (pure v) v
  unfolding written pure
  Trips-nothing = record { trip = λ e h rest. grind arith }

  pub Trips-written :
      {get : Decoder A} {v : A} (s : Bytes)
      → ((rest : Bytes) → get (s ++ rest) ≡ ok (v, rest))
      → Trips (written s) get v
  unfolding written
  Trips-written {get} {v} s reads = record {
    trip = λ e h rest. subst (λ x. get (x ++ rest) ≡ ok (v, rest)) (ok_inj h) (reads rest);
  }
    where
      ok_inj : {x y : Bytes} → Path (Written) (ok x) (ok y) → x ≡ y
      ok_inj h = cc

  pub Trips-or_fail :
      {o : Option A} {v : A} (x : DecodeError) → o ≡ some v → Trips (written []) (or_fail o x) v
  unfolding written or_fail pure
  Trips-or_fail {o} x h = record { trip = λ e p rest. rw h (grind arith) }

  -- The decoder's checks let through what the encoder's checks let through.
  pub Trips-reject_if :
      {w : Written} {b : Bool} (x : DecodeError) {m : Decoder A} {v : A}
      → b ≡ false
      → Trips w m v
      → Trips w (reject_if b x >> m) v
  unfolding reject_if ◌>>◌ ◌>>=◌ pure
  Trips-reject_if {b = true} x h t = cc
  Trips-reject_if {b = false} x h t = record { trip = λ e. t.trip e }

  pub Trips-refuse_if :
      (b : Bool) (x : EncodeError) {w : Written} {m : Decoder A} {v : A}
      → (b ≡ false → Trips w m v)
      → Trips (refuse_if b x w) m v
  unfolding refuse_if
  Trips-refuse_if true x t = record { trip = λ e h rest. cc }
  Trips-refuse_if false x t = t refl

  -- The same for an entry with others behind it.
  pub Trips-refuse_if_seq :
      (b : Bool) (x : EncodeError) (w z : Written) {m : Decoder A} {v : A}
      → (b ≡ false → Trips (w <+> z) m v)
      → Trips (refuse_if b x w <+> z) m v
  unfolding refuse_if ◌<+>◌
  Trips-refuse_if_seq true x w z t = record { trip = λ e h rest. cc }
  Trips-refuse_if_seq false x w z t = t refl

  pub Trips-regroup :
      (w y z : Written) {m : Decoder A} {v : A}
      → Trips (w <+> (y <+> z)) m v
      → Trips ((w <+> y) <+> z) m v
  Trips-regroup w y z t = rw (<+>-assoc w y z) t

  pub Extends-pure : (v : A) → Extends (pure v)
  unfolding pure
  Extends-pure v = record { extend = λ c v rest more h. grind arith }

  pub Extends-fail : (x : DecodeError) → Extends (fail {A = A} x)
  unfolding fail
  Extends-fail x = record { extend = λ c v rest more h. cc }

  pub Extends-if_not :
      (b : Bool) (m : Decoder A) {n : Decoder A}
      → b ≡ false
      → Extends n
      → Extends (if b then m else n)
  Extends-if_not true m h q = cc
  Extends-if_not false m h q = q

  pub Extends-or_fail : (o : Option A) (x : DecodeError) → Extends (or_fail o x)
  unfolding or_fail
  Extends-or_fail none x = Extends-fail x
  Extends-or_fail (some a) x = Extends-pure a

  pub Extends-if :
      (b : Bool) {m n : Decoder A} → Extends m → Extends n → Extends (if b then m else n)
  Extends-if true p q = p
  Extends-if false p q = q

  pub Extends-reject_if :
      (b : Bool) (x : DecodeError) {m : Decoder A} → Extends m → Extends (reject_if b x >> m)
  unfolding reject_if ◌>>◌ ◌>>=◌ pure fail
  Extends-reject_if true x p = record { extend = λ c v rest more h. cc }
  Extends-reject_if false x p = record { extend = λ c. p.extend c }

pub Costs-seq : {w z : Written} {n k : ℕ} → Costs w n → Costs z k → Costs (w <+> z) (n + k)
Costs-seq {w} {z} {n} {k} p q = record {
  cost = λ e h.
      let (x, y, hx, hy, join) = <+>-ok w z e h in
      subst (λ s. length s ≤ n + k) join
        (omega (arith, length-append x y, p.cost x hx, q.cost y hy));
}

pub Costs-written : (bytes : Bytes) {n : ℕ} → length bytes ≤ n → Costs (written bytes) n
unfolding written
Costs-written bytes {n} h = record { cost = λ e p. grind arith }

pub Costs-refuse_if :
    (b : Bool) (x : EncodeError) {w : Written} {n : ℕ} → Costs w n → Costs (refuse_if b x w) n
unfolding refuse_if
Costs-refuse_if true x p = record { cost = λ e h. cc }
Costs-refuse_if false x p = p

pub Costs-refuse_if_let :
    (b : Bool) (x : EncodeError) {w : Written} {n : ℕ}
    → (b ≡ false → Costs w n)
    → Costs (refuse_if b x w) n
unfolding refuse_if
Costs-refuse_if_let true x p = record { cost = λ e h. cc }
Costs-refuse_if_let false x p = p refl

pub Costs-more : {w : Written} {n k : ℕ} → Costs w n → n ≤ k → Costs w k
Costs-more p h = record { cost = λ e q. omega (arith, p.cost e q) }
