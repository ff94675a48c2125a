-- ===== src/Validation/Tuples.antt =====
-- internal/validation/validation.go: the validation of a tuple for a write and for a read.
use kengen.Base.{
  Text, text_eq, Bool, true, false, not, ◌&&◌, Option, none, some, List, [], any, if◌then◌else◌,
}
use kengen.Tuple.Key.{TupleKey}
use kengen.Tuple.Split.{
  split_object, split_object_relation, get_type, is_typed_wildcard, is_wildcard,
}
use kengen.Tuple.Valid.{is_valid_object, is_object_relation}
use kengen.Typesystem.Model.{
  Userset, unset, RelationReference, relation_of, has_wildcard, Relation, TypeSystem, lookup,
  or_nil,
}
use kengen.Typesystem.Lookup.{
  TypesystemError, ok, err, get_type_definition, get_relation, has_type_info, is_tupleset_relation,
}
use kengen.Typesystem.Rewrites.{is_this}
use kengen.Validation.Struct.{Value, Fields}
use kengen.Validation.Users.{
  Cause, of_typesystem, tupleset_with_rewrite, tupleset_with_wildcard, tupleset_user,
  no_object_type, restriction, validate_user_object_relation,
}
use kengen.Validation.Conditions.{ConditionCheck, passes, refused, failed, validate_condition}

-- `InvalidTupleError`, `InvalidConditionalTupleError`, or the error of the type system as it is.
pub data ValidationError : Type 0 where
  invalid_tuple invalid_conditional_tuple : Cause → ValidationError
  typesystem_error : TypesystemError → ValidationError

-- `rewrite != nil` and not `This`
abbrev pub is_rewritten : Userset → Bool
is_rewritten unset = false
is_rewritten u = not (is_this u)

module _ {D : Type 0} (typesys : TypeSystem D) where
  -- The part of `validateTuplesetRestrictions` for a tupleset relation.
  unfoldable pub validate_tupleset_user : Text → Relation → Option Cause
  unfolding is_wildcard is_valid_object
  validate_tupleset_user user rel =
      if is_rewritten rel.rewrite
      then some tupleset_with_rewrite
      else if is_wildcard user
      then some tupleset_with_wildcard
      else if not (is_valid_object user)
      then some tupleset_user
      else none

  -- `validateTuplesetRestrictions`
  unfoldable pub validate_tupleset_restrictions : {C : Type 0} → TupleKey C → Option Cause
  unfolding get_type is_tupleset_relation get_relation validate_tupleset_user
  validate_tupleset_restrictions tk =
      let object_type = get_type tk.object in
      elim (is_tupleset_relation typesys object_type tk.relation) [
        | err e ↦ some (of_typesystem e)
        | ok false ↦ none
        | ok true ↦ elim (get_relation typesys object_type tk.relation) [
          | err e ↦ some (of_typesystem e)
          | ok rel ↦ validate_tupleset_user tk.user rel
        ]
      ]

  -- The test of the loops of `validateTypeRestrictions`.
  abbrev pub type_allowed : Text → RelationReference → Bool
  type_allowed user ref =
      let u = split_object_relation user in
      let of_type = text_eq ref.object_type (split_object u.0).0 in
      if is_object_relation user
      then of_type && text_eq (relation_of ref.target) u.1
      else if is_typed_wildcard user
      then of_type && has_wildcard ref.target
      else of_type && (not (has_wildcard ref.target) && text_eq (relation_of ref.target) [])

  -- `validateTypeRestrictions`
  unfoldable pub validate_type_restrictions : {C : Type 0} → TupleKey C → Option Cause
  unfolding get_type split_object_relation split_object is_object_relation is_typed_wildcard
  validate_type_restrictions tk = elim (get_type_definition typesys (get_type tk.object)) [
    | none ↦ some no_object_type
    | some td ↦
        if any (type_allowed tk.user) (or_nil (lookup tk.relation td.metadata))
        then none
        else some restriction
  ]

abbrev pub as_invalid : Option Cause → Option ValidationError → Option ValidationError
as_invalid (some e) next = some (invalid_tuple e)
as_invalid none next = next

abbrev pub of_condition : ConditionCheck → Option ValidationError
of_condition passes = none
of_condition (refused e) = some (invalid_conditional_tuple e)
of_condition (failed e) = some (typesystem_error e)

module _ {D P : Type 0} (parameters : D → List (Text × P)) (convert : P → Value → Bool)
    (typesys : TypeSystem D) where
  -- `ValidateTupleForRead`
  unfoldable pub validate_tuple_for_read : TupleKey Fields → Option ValidationError
  unfolding validate_tupleset_restrictions has_type_info get_type validate_type_restrictions
      validate_condition
  validate_tuple_for_read tk =
      as_invalid (validate_tupleset_restrictions typesys tk)
        (elim (has_type_info typesys (get_type tk.object) tk.relation) [
          | err e ↦ some (typesystem_error e)
          | ok false ↦ none
          | ok true ↦
              as_invalid (validate_type_restrictions typesys tk)
                (of_condition (validate_condition parameters convert typesys tk))
        ])

  -- `ValidateTupleForWrite`
  unfoldable pub validate_tuple_for_write : TupleKey Fields → Option ValidationError
  unfolding validate_user_object_relation validate_tuple_for_read
  validate_tuple_for_write tk =
      as_invalid (validate_user_object_relation typesys tk) (validate_tuple_for_read tk)

  abbrev pub is_nil : Option ValidationError → Bool
  is_nil none = true
  is_nil (some e) = false

  -- `FilterInvalidTuples`
  unfoldable pub filter_invalid_tuples : TupleKey Fields → Bool
  unfolding validate_tuple_for_read
  filter_invalid_tuples tk = is_nil (validate_tuple_for_read tk)
