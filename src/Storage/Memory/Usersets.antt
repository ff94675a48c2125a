-- ===== src/Storage/Memory/Usersets.antt =====
-- What `ReadUsersetTuples` of pkg/storage/memory/memory.go returns.
use kengen.Base.{
  Text, text_eq, ◌≡◌, refl, ap, Bool, true, false, ◌&&◌, List, [], ◌∷◌, arith, any, if◌then◌else◌,
}
use kengen.Tuple.Split.{get_type, split_object_relation}
use kengen.Tuple.Valid.{get_user_type_from_user}
use kengen.Storage.Record.{TupleRecord}
use kengen.Storage.Memory.Match.{matches}
use kengen.Storage.Memory.Write.{TupleBackend}
use kengen.Storage.Memory.Read.{
  ReadUsersetTuplesFilter, is_user_set, userset_step, userset_loop, read_userset_tuples,
}

-- No type restriction stands twice in the list.
abbrev pub NoRepeat : List (Text × Text) → Type 0
NoRepeat [] = Unit {0}
NoRepeat (a ∷ as') = (any (λ b. text_eq b.0 a.0 && text_eq b.1 a.1) as' ≡ false) × NoRepeat as'

module _ {C : Type 0} where
  -- A type restriction that the user of the record fits.
  abbrev pub fits : TupleRecord C → Text × Text → Bool
  fits t a = text_eq a.0 (get_type t.user) && text_eq a.1 (split_object_relation t.user).1

  -- With no restriction every user is allowed.
  abbrev pub allowed_user : List (Text × Text) → TupleRecord C → Bool
  allowed_user [] t = true
  allowed_user (a ∷ allowed) t = any (fits t) (a ∷ allowed)

  -- The records that `ReadUsersetTuples` looks for, whatever their conditions.
  abbrev pub selects : ReadUsersetTuplesFilter → TupleRecord C → Bool
  selects f t =
      (matches t f.object f.relation [] && is_user_set (get_user_type_from_user t.user))
      && allowed_user f.allowed_user_type_restrictions t

  userset_step_conditions :
      (f : ReadUsersetTuplesFilter) (cs : List Text) (t : TupleRecord C)
      (allowed : List (Text × Text)) (ms : List (TupleRecord C))
      → userset_step (record f { conditions = cs }) t allowed ms ≡ userset_step f t allowed ms
  unfolding userset_step
  userset_step_conditions f cs t [] ms = refl
  userset_step_conditions f cs t (a ∷ allowed) ms = ground arith

  userset_loop_conditions :
      (f : ReadUsersetTuplesFilter) (cs : List Text) (ts ms : List (TupleRecord C))
      → userset_loop (record f { conditions = cs }) ts ms ≡ userset_loop f ts ms
  unfolding userset_loop
  userset_loop_conditions f cs [] ms = refl
  userset_loop_conditions f cs (t ∷ ts) ms =
      rw (userset_step_conditions f cs t f.allowed_user_type_restrictions ms) (
        userset_loop_conditions f cs ts (
          if matches t f.object f.relation [] && is_user_set (get_user_type_from_user t.user)
          then userset_step f t f.allowed_user_type_restrictions ms
          else ms))

  -- The conditions of the filter make no difference to what `ReadUsersetTuples` returns.
  pub read_userset_tuples_conditions :
      (s : TupleBackend C) (store : Text) (f : ReadUsersetTuplesFilter) (conditions : List Text)
      → read_userset_tuples s store (record f { conditions = conditions })
        ≡ read_userset_tuples s store f
  unfolding read_userset_tuples
  read_userset_tuples_conditions s store f conditions =
      ap (λ rs. record { records = rs; continuation_token = [] })
        (userset_loop_conditions f conditions (s.tuples store) [])
