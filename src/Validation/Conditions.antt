-- ===== src/Validation/Conditions.antt =====
-- internal/validation/validation.go: the condition of a tuple, with `CastContextToTypedParameters` of
-- internal/condition/condition.go. The conversion of a value to the type of a parameter is done by the CEL library.
use kengen.Base.{
  Text, text_eq, Bool, true, false, not, ◌&&◌, Option, none, some, List, [], ◌∷◌, any, find,
  if◌then◌else◌,
}
use kengen.Tuple.Key.{TupleKey, RelationshipCondition}
use kengen.Tuple.Split.{get_type, get_relation, is_typed_wildcard}
use kengen.Typesystem.Model.{
  RelationOrWildcard, RelationReference, relation_of, has_wildcard, has_target, TypeSystem, lookup,
}
use kengen.Typesystem.Lookup.{TypesystemError, ok, err, get_directly_related_user_types}
use kengen.Validation.Struct.{
  Value, Fields, no_fields, field, field_names, contains_forbidden_chars, validate_struct,
}
use kengen.Validation.Users.{
  Cause, condition_missing, forbidden_condition_name, undefined_condition, condition_refused,
  forbidden_context, bad_parameters, undeclared_parameter,
}

abbrev pub get_field : Text → Fields → Option Value
get_field key no_fields = none
get_field key (field k v fs) = let more = get_field key fs in if text_eq k key then some v else more

-- `GetFields` of a struct that may be nil
abbrev pub fields_of : Option Fields → Fields
fields_of none = no_fields
fields_of (some fs) = fs

-- The loop of `CastContextToTypedParameters`: the names that are converted. `P` is the type of a parameter.
unfoldable pub cast_loop :
    {P : Type 0} → (P → Value → Bool) → Fields → List (Text × P) → Option (List Text)
cast_loop convert context [] = some []
cast_loop convert context ((key, p) ∷ parameters) =
    let rest = cast_loop convert context parameters in
    elim (get_field key context) [
      | none ↦ rest
      | some v ↦
          if convert p v then elim rest [ none ↦ none | some names ↦ some (key ∷ names) ] else none
    ]

-- `CastContextToTypedParameters`: `none` is an error.
unfoldable pub cast_context_to_typed_parameters :
    {P : Type 0} → (P → Value → Bool) → Fields → List (Text × P) → Option (List Text)
unfolding cast_loop
cast_context_to_typed_parameters convert no_fields parameters = some []
cast_context_to_typed_parameters convert context [] = none
cast_context_to_typed_parameters convert context ps = cast_loop convert context ps

-- `restrictionFacetMatches` on the oneof of the restriction
unfoldable pub facet_matches : RelationOrWildcard → Text → Text → Bool
unfolding is_typed_wildcard
facet_matches target user user_relation =
    if has_target target
    then (if not (text_eq (relation_of target) [])
          && not (text_eq (relation_of target) user_relation)
        then false
        else if has_wildcard target && not (is_typed_wildcard user)
        then false
        else true)
    else not (is_typed_wildcard user) && text_eq user_relation []

abbrev pub restriction_facet_matches : RelationReference → Text → Text → Bool
restriction_facet_matches ref user user_relation = facet_matches ref.target user user_relation

-- The test of the two loops over the type restrictions.
abbrev pub restriction_allows : (condition : Text) (user : Text) → RelationReference → Bool
restriction_allows condition user ref =
    text_eq ref.object_type (get_type user)
    && (text_eq ref.condition condition && restriction_facet_matches ref user (get_relation user))

abbrev pub undeclared : List Text → List Text → Option Cause
undeclared typed_params keys = elim (find (λ key. not (any (text_eq key) typed_params)) keys) [
  | none ↦ none
  | some key ↦ some (undeclared_parameter key)
]

-- What `validateCondition` returns: a cause, an error of the type system, or nothing.
pub data ConditionCheck : Type 0 where
  passes : ConditionCheck
  refused : Cause → ConditionCheck
  failed : TypesystemError → ConditionCheck

abbrev pub check_of : Option Cause → ConditionCheck
check_of none = passes
check_of (some e) = refused e

module _ {D P : Type 0} (parameters : D → List (Text × P)) (convert : P → Value → Bool) where
  -- The context of a condition that is there.
  unfoldable pub validate_context : D → Option Fields → Option Cause
  unfolding validate_struct cast_context_to_typed_parameters
  validate_context condition context =
      let fs = fields_of context in
      elim (validate_struct fs) [
        | some e ↦ some (forbidden_context e)
        | none ↦ elim (cast_context_to_typed_parameters convert fs (parameters condition)) [
          | none ↦ some bad_parameters
          | some typed_params ↦ undeclared typed_params (field_names fs)
        ]
      ]

  unfoldable pub validate_named_condition :
      TypeSystem D → Text → List RelationReference → RelationshipCondition Fields → Option Cause
  unfolding contains_forbidden_chars facet_matches validate_context get_type get_relation
  validate_named_condition typesys user restrictions c =
      if contains_forbidden_chars c.name
      then some forbidden_condition_name
      else elim (lookup c.name typesys.conditions) [
        | none ↦ some undefined_condition
        | some condition ↦
            if any (restriction_allows c.name user) restrictions
            then validate_context condition c.context
            else some condition_refused
      ]

  -- `validateCondition` once the restrictions are found.
  unfoldable pub check_condition :
      TypeSystem D
      → Text
      → List RelationReference
      → Option (RelationshipCondition Fields)
      → ConditionCheck
  unfolding validate_named_condition facet_matches get_relation get_type
  check_condition typesys user restrictions none =
      check_of
        (if any (restriction_allows [] user) restrictions then none else some condition_missing)
  check_condition typesys user restrictions (some c) =
      check_of (validate_named_condition typesys user restrictions c)

  -- `validateCondition`
  unfoldable pub validate_condition : TypeSystem D → TupleKey Fields → ConditionCheck
  unfolding get_directly_related_user_types get_type check_condition
  validate_condition typesys tk =
      elim (get_directly_related_user_types typesys (get_type tk.object) tk.relation) [
        | err e ↦ failed e
        | ok restrictions ↦ check_condition typesys tk.user restrictions tk.condition
      ]
