-- ===== src/Proto/Field/Vector/Lawful.antt =====
-- The codecs of counted lists keep the laws of a field, since those of their entries do.
use braid.Prelude.{ℕ, zero, suc, ◌+◌, refl, List, [], ◌∷◌, arith, length}
use braid.Proto.Cursor.{Written, Decoder}
use braid.Proto.Laws.{
  Trips, Extends, Costs, Trips-seq, Trips-last, Trips-end, Trips-before, Extends-seq, Trips-nothing,
  Trips-or_fail, Trips-reject_if, Trips-refuse_if, Extends-pure, Extends-or_fail, Extends-reject_if,
  Costs-seq, Costs-written, Costs-refuse_if, Costs-more,
}
use braid.Proto.Laws.Words.{
  Trips-u8, Trips-array, Trips-u16, Trips-u64, Extends-u8, Extends-array, Extends-u16, Extends-u64,
  Costs-u8, Costs-u16, Costs-u64,
}
use braid.Proto.Values.{IsU16, IsU64, IsArray, IsGridSize}
use braid.Proto.Field.{IsLawful}
use braid.Proto.Field.Str.Lawful.{
  IsString, Trips-str, Extends-str, Extends-reject_control, Trips-reject_control, Costs-written_all,
}
use braid.Proto.Field.Struct.Lawful.{grid_size-some, Costs-array}
use braid.Proto.Field.Vector.{
  put_each, repeat, sum, SessionSummary, put_session, get_session, list_field, sessions_field,
}

abbrev pub All : {A : Type 0} → (A → Type 0) → List A → Type 0
All Fits [] = Unit
All Fits (x ∷ xs) = Fits x × All Fits xs

module _ {A : Type 0} (put : A → Written) (Fits : A → Type 0) where
  pub Costs-each :
      (size : A → ℕ)
      → ((x : A) → Fits x → Costs (put x) (size x))
      → (xs : List A) → All Fits xs
      → Costs (put_each put xs) (sum size xs)
  unfolding put_each sum
  Costs-each size one [] h = Costs-written [] (omega arith)
  Costs-each size one (x ∷ xs) h = Costs-seq (one x h.0) (Costs-each size one xs h.1)

module _ {A : Type 0} (put : A → Written) (get : Decoder A) (Fits : A → Type 0) where
  pub Trips-repeat :
      ((x : A) → Fits x → Trips (put x) get x)
      → (xs : List A) → All Fits xs
      → Trips (put_each put xs) (repeat (length xs) get) xs
  unfolding put_each repeat
  Trips-repeat one [] h = Trips-nothing
  Trips-repeat one (x ∷ xs) h =
      Trips-seq _ (one x h.0) (Trips-last (◌∷◌ x) (Trips-repeat one xs h.1))

  pub Extends-repeat : Extends get → (n : ℕ) → Extends (repeat n get)
  unfolding repeat
  Extends-repeat one zero = Extends-pure []
  Extends-repeat one (suc n) =
      Extends-seq one (λ x. Extends-seq (Extends-repeat one n) (λ xs. Extends-pure _))

  pub list_field-IsLawful :
      (most : ℕ) (size : A → ℕ)
      → ((x : A) → Fits x → Trips (put x) get x)
      → Extends get
      → ((x : A) → Fits x → Costs (put x) (size x))
      → IsLawful (list_field most size put get) (All Fits)
  unfolding list_field
  list_field-IsLawful most size one more cost = record {
    trips = λ xs h. Trips-refuse_if _ _ (λ few. Trips-refuse_if _ _ (λ narrow.
        Trips-seq _ (Trips-u16 (length xs) (ground arith))
          (Trips-reject_if _ few (Trips-repeat one xs h))));
    extends = Extends-seq Extends-u16 (λ count. Extends-reject_if _ _ (Extends-repeat more count));
    costs = λ xs h.
        Costs-refuse_if _ _
          (Costs-refuse_if _ _ (Costs-seq (Costs-u16 _) (Costs-each put Fits size cost xs h)));
  }

abbrev pub IsSessionSummary : SessionSummary → Type 0
IsSessionSummary s =
    IsArray 16 s.session_id
    × IsGridSize s.size
    × IsU16 s.attachments
    × IsU64 s.active_unix
    × IsString s.command

Trips-session : (s : SessionSummary) → IsSessionSummary s → Trips (put_session s) get_session s
unfolding put_session get_session
Trips-session s h = Trips-refuse_if _ _ (λ valid. Trips-seq _ (Trips-array s.session_id 16 h.0) (
    Trips-seq _ (Trips-u16 s.size.cols (omega arith)) (
      Trips-seq _ (Trips-u16 s.size.rows (omega arith)) (
        Trips-before _ (Trips-or_fail _ (grid_size-some s.size h.1)) (
          Trips-seq _ (Trips-u16 s.attachments h.2) (
            Trips-seq _ (Trips-u64 s.active_unix h.3) (
              Trips-refuse_if _ _ (λ narrow. Trips-seq _ (Trips-u8 (length s.command)) (
                Trips-reject_if _ (ground arith) (
                  Trips-end _ (Trips-str s.command (length s.command) refl h.4)
                    (Trips-reject_control s.command (ground arith) Trips-nothing)))))))))))

Extends-session : Extends get_session
unfolding get_session
Extends-session = Extends-seq (Extends-array 16) (λ id. Extends-seq Extends-u16 (λ cols.
    Extends-seq Extends-u16 (λ rows. Extends-seq (Extends-or_fail _ _) (λ size.
      Extends-seq Extends-u16 (λ attachments. Extends-seq Extends-u64 (λ active.
        Extends-seq Extends-u8 (λ len.
          Extends-reject_if _ _
            (Extends-seq (Extends-str len) (λ s. Extends-reject_control s (Extends-pure _))))))))))

Costs-session :
    (s : SessionSummary) → IsSessionSummary s → Costs (put_session s) (31 + length s.command)
unfolding put_session
Costs-session s h =
    Costs-more
      (Costs-refuse_if _ _ (
        Costs-seq (Costs-array 16 s.session_id h.0) (
          Costs-seq (Costs-u16 _) (
            Costs-seq (Costs-u16 _) (
              Costs-seq (Costs-u16 _) (
                Costs-seq (Costs-u64 _)
                  (Costs-refuse_if _ _ (Costs-seq (Costs-u8 _) (Costs-written_all s.command)))))))))
      (omega arith)

pub sessions_field-IsLawful : IsLawful sessions_field (All IsSessionSummary)
unfolding sessions_field
sessions_field-IsLawful = list_field-IsLawful _ _ _ _ _ Trips-session Extends-session Costs-session
