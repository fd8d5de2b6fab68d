-- ===== src/Proto/Field/Env/Lawful.antt =====
-- The environment and the command keep the laws of a field: no part of a list that is within
-- its bound as a whole goes past it on the way.
use braid.Prelude.{ℕ, zero, suc, ◌+◌, ◌≤◌, ◌≡◌, refl, false, List, [], ◌∷◌, arith, length, Bytes}
use braid.Proto.Outcome.{bad_command}
use braid.Proto.Laws.{
  Trips, Extends, Costs, Trips-seq, Trips-last, Extends-seq, Trips-nothing, Trips-reject_if,
  Trips-refuse_if, Trips-refuse_if_seq, Trips-regroup, Extends-pure, Extends-reject_if, Costs-seq,
  Costs-refuse_if, Costs-more,
}
use braid.Proto.Laws.Words.{Trips-u8, Trips-u16, Extends-u8, Extends-u16, Costs-u8, Costs-u16}
use braid.Proto.Field.{IsLawful}
use braid.Proto.Field.Str.{u16_prefixed}
use braid.Proto.Field.Str.Lawful.{
  IsString, Trips-str, Extends-str, Extends-reject_control, Trips-reject_control, Costs-written_all,
}
use braid.Proto.Field.Scalar.{word}
use braid.Proto.Field.Vector.{put_each, sum, max_command}
use braid.Proto.Field.Vector.Lawful.{All, Costs-each}
use braid.Proto.Field.Env.{
  max_env, Var, var_size, put_var, encode_env, get_vars, decode_env, env_field, word_size,
  any_empty, encode_command, get_words, decode_command, command_field,
}

abbrev pub IsVar : Var → Type 0
IsVar var = IsString var.name × IsString var.value

Trips-vars :
    (env : List Var) (total : ℕ)
    → total + sum var_size env ≤ max_env
    → All IsVar env
    → Trips (put_each put_var env) (get_vars (length env) total) env
unfolding put_each get_vars put_var sum
Trips-vars [] total bound h = Trips-nothing
Trips-vars (var ∷ env) total bound h = Trips-refuse_if_seq _ _ _ _ (λ valid.
    Trips-refuse_if_seq _ _ _ _ (λ narrow. Trips-regroup _ _ _ (
      Trips-seq _ (Trips-u8 (length var.name)) (
        Trips-regroup _ _ _ (
          Trips-seq _ (Trips-str var.name (length var.name) refl (h.0).0) (
            Trips-refuse_if_seq _ _ _ _ (λ narrow_value. Trips-regroup _ _ _ (
              Trips-seq _ (Trips-u16 (length var.value) (ground arith)) (
                Trips-seq _ (Trips-str var.value (length var.value) refl (h.0).1) (
                  Trips-reject_if _ (ground arith) (
                    Trips-reject_control var.value (ground arith)
                      (Trips-last _ (Trips-vars env _ (omega (arith, bound)) h.1)))))))))))))

Extends-vars : (n total : ℕ) → Extends (get_vars n total)
unfolding get_vars
Extends-vars zero total = Extends-pure []
Extends-vars (suc n) total = Extends-seq Extends-u8 (λ name_len.
    Extends-seq (Extends-str name_len) (λ name. Extends-seq Extends-u16 (λ value_len.
      Extends-seq (Extends-str value_len) (λ value.
        Extends-reject_if _ _ (
          Extends-reject_control value (Extends-seq (Extends-vars n _) (λ env. Extends-pure _)))))))

pub Costs-var : (var : Var) → IsVar var → Costs (put_var var) (var_size var)
unfolding put_var
Costs-var var h =
    Costs-more
      (Costs-refuse_if _ _ (
        Costs-refuse_if _ _ (
          Costs-seq (Costs-u8 _) (
            Costs-seq (Costs-written_all var.name)
              (Costs-refuse_if _ _ (Costs-seq (Costs-u16 _) (Costs-written_all var.value)))))))
      (omega arith)

pub env_field-IsLawful : IsLawful env_field (All IsVar)
unfolding env_field encode_env decode_env
env_field-IsLawful = record {
  trips = λ env h. Trips-refuse_if _ _ (λ few. Trips-refuse_if _ _ (λ small.
      Trips-refuse_if _ _ (λ narrow.
        Trips-seq _ (Trips-u8 (length env))
          (Trips-reject_if _ few (Trips-vars env 0 (ground arith) h)))));
  extends = Extends-seq Extends-u8 (λ count. Extends-reject_if _ _ (Extends-vars count 0));
  costs = λ env h. Costs-refuse_if _ _ (
      Costs-refuse_if _ _ (
        Costs-refuse_if _ _
          (Costs-seq (Costs-u8 _) (Costs-each put_var IsVar var_size Costs-var env h))));
}

Trips-words :
    (words : List Bytes) (total : ℕ)
    → total + sum word_size words ≤ max_command
    → any_empty words ≡ false
    → All IsString words
    → Trips (put_each (u16_prefixed bad_command) words) (get_words (length words) total) words
unfolding put_each get_words sum any_empty
Trips-words [] total bound full h = Trips-nothing
Trips-words (word ∷ words) total bound full h = Trips-refuse_if_seq _ _ _ _ (λ narrow.
    Trips-regroup _ _ _ (
      Trips-seq _ (Trips-u16 (length word) (ground arith)) (
        Trips-seq _ (Trips-str word (length word) refl h.0) (
          Trips-reject_if _ (ground arith)
            (Trips-last _ (Trips-words words _ (omega (arith, bound)) (ground arith) h.1))))))

Extends-words : (n total : ℕ) → Extends (get_words n total)
unfolding get_words
Extends-words zero total = Extends-pure []
Extends-words (suc n) total = Extends-seq Extends-u16 (λ len.
    Extends-seq (Extends-str len)
      (λ word. Extends-reject_if _ _ (Extends-seq (Extends-words n _) (λ words. Extends-pure _))))

pub Costs-word :
    (word : Bytes) → IsString word → Costs (u16_prefixed bad_command word) (word_size word)
Costs-word word h =
    Costs-more (Costs-refuse_if _ _ (Costs-seq (Costs-u16 _) (Costs-written_all word)))
      (omega arith)

pub command_field-IsLawful : IsLawful command_field (All IsString)
unfolding command_field encode_command decode_command
command_field-IsLawful = record {
  trips = λ words h. Trips-refuse_if _ _ (λ few. Trips-refuse_if _ _ (λ small.
      Trips-refuse_if _ _ (λ full. Trips-refuse_if _ _ (λ narrow.
        Trips-seq _ (Trips-u8 (length words))
          (Trips-reject_if _ few (Trips-words words 0 (ground arith) full h))))));
  extends = Extends-seq Extends-u8 (λ count. Extends-reject_if _ _ (Extends-words count 0));
  costs = λ words h. Costs-refuse_if _ _ (
      Costs-refuse_if _ _ (
        Costs-refuse_if _ _ (
          Costs-refuse_if _ _ (
            Costs-seq (Costs-u8 _)
              (Costs-each (u16_prefixed bad_command) IsString word_size Costs-word words h)))));
}
