-- ===== src/Tuple/Parse.antt =====
-- pkg/tuple/tuple.go: tuple keys as strings.
use kengen.Base.{Text, text, not, Option, none, some, [], ◌∷◌, ◌++◌, if◌then◌else◌}
use kengen.Tuple.Key.{TupleKey, RelationshipCondition, new_tuple_key}
use kengen.Tuple.Split.{cut}
use kengen.Tuple.Valid.{is_valid_object, is_valid_relation, is_valid_user}

-- One constructor for each error of `ParseTupleString`.
pub data ParseError : Type 0 where
  no_hash bad_object no_at bad_relation bad_user : ParseError

pub data Result {ℓ} (A : Type ℓ) : Type ℓ where
  ok : A → Result A
  err : ParseError → Result A

-- `TupleKeyToString`, and the method `Tuple.String`
unfoldable pub tuple_key_to_string : Text → Text → Text → Text
tuple_key_to_string obj rel user = obj ++ (b'#' ∷ (rel ++ (b'@' ∷ user)))

unfoldable pub condition_suffix : {C : Type 0} → Option (RelationshipCondition C) → Text
condition_suffix none = []
condition_suffix (some c) = text " (condition " ++ (c.name ++ (b')' ∷ []))

unfoldable pub tuple_key_with_condition_to_string : {C : Type 0} → TupleKey C → Text
unfolding tuple_key_to_string condition_suffix
tuple_key_with_condition_to_string tk =
    tuple_key_to_string tk.object tk.relation tk.user ++ condition_suffix tk.condition

module _ {C : Type 0} where
  unfoldable pub parse_relation : Text → Text → Result (TupleKey C)
  unfolding cut is_valid_relation is_valid_user
  parse_relation object rhs = elim (cut b'@' rhs) [
    | none ↦ err no_at
    | some (relation, user) ↦
        if not (is_valid_relation relation)
        then err bad_relation
        else if not (is_valid_user user)
        then err bad_user
        else ok (new_tuple_key object relation user)
  ]

  unfoldable pub parse_tuple_string : Text → Result (TupleKey C)
  unfolding parse_relation cut is_valid_object
  parse_tuple_string s = elim (cut b'#' s) [
    | none ↦ err no_hash
    | some (object, rhs) ↦
        if not (is_valid_object object) then err bad_object else parse_relation object rhs
  ]
