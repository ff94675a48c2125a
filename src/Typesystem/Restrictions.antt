-- ===== src/Typesystem/Restrictions.antt =====
-- pkg/typesystem/typesystem.go: the validation of names, type restrictions and conditions.
use kengen.Base.{
  Text, text, text_eq, Bool, true, false, not, ◌&&◌, ◌||◌, Option, none, some, List, [], ◌∷◌, map,
  any, if◌then◌else◌,
}
use kengen.Typesystem.Model.{
  RelationReference, relation_of, has_wildcard, has_target, TypeDefinition, AuthorizationModel,
  TypeSystem, lookup,
}
use kengen.Typesystem.Lookup.{
  TypesystemError, empty_type_name, reserved_type, empty_relation_name, reserved_relation,
  assignable_without_types, types_not_assignable, invalid_relation_type, empty_relation_reference,
  no_condition, walk_error, condition_name_mismatch, ok, err, get_relation, get_relations,
  is_tupleset_relation,
}
use kengen.Typesystem.Rewrites.{also, is_directly_assignable, is_defined}

-- `containsDuplicateType`
unfoldable pub contains_duplicate : List Text → List Text → Bool
contains_duplicate seen [] = false
contains_duplicate seen (x ∷ xs) = any (text_eq x) seen || contains_duplicate (x ∷ seen) xs

unfoldable pub contains_duplicate_type : {D : Type 0} → AuthorizationModel D → Bool
unfolding contains_duplicate
contains_duplicate_type model =
    contains_duplicate [] (map (λ td. td.type_name) model.type_definitions)

-- The checks of a list one after another.
abbrev pub each_passes :
    {A : Type 0} → (A → Option TypesystemError) → List A → Option TypesystemError
each_passes f [] = none
each_passes f (x ∷ xs) = also (f x) (each_passes f xs)

abbrev pub is_reserved : Text → Bool
is_reserved name = text_eq name (text "self") || text_eq name (text "this")

unfoldable pub validate_relation_name : Text → Text → Option TypesystemError
validate_relation_name object_type relation =
    if text_eq relation []
    then some (empty_relation_name object_type)
    else if is_reserved relation
    then some (reserved_relation object_type relation)
    else none

unfoldable pub validate_type_names : TypeDefinition → Option TypesystemError
unfolding validate_relation_name
validate_type_names td =
    if text_eq td.type_name []
    then some empty_type_name
    else if is_reserved td.type_name
    then some (reserved_type td.type_name)
    else each_passes (λ r. validate_relation_name td.type_name r.0) td.relations

module _ {D : Type 0} (t : TypeSystem D) where
  -- `validateNames`: Go visits a map in any order, so which of several errors it returns is open.
  unfoldable pub validate_names : Option TypesystemError
  unfolding validate_type_names
  validate_names = each_passes (λ td. validate_type_names td.1) t.type_definitions

  abbrev is_tupleset : Text → Text → Bool
  is_tupleset object_type relation = elim (is_tupleset_relation t object_type relation) [
    | ok b ↦ b
    | err e ↦ false
  ]

  -- The oneof of a related type, if it is set.
  unfoldable pub validate_target : Text → Text → RelationReference → Option TypesystemError
  unfolding is_tupleset_relation get_relation
  validate_target object_type relation ref =
      let invalid =
        invalid_relation_type object_type relation ref.object_type (relation_of ref.target) in
      if not (has_target ref.target)
      then none
      else if is_tupleset object_type relation
      then some invalid
      else if has_wildcard ref.target
      then none
      else if not (text_eq (relation_of ref.target) [])
      then (if is_defined t ref.object_type (relation_of ref.target) then none else some invalid)
      else some (empty_relation_reference object_type relation ref.object_type)

  unfoldable pub validate_reference_condition : Text → RelationReference → Option TypesystemError
  validate_reference_condition relation ref =
      if text_eq ref.condition [] then none else elim (lookup ref.condition t.conditions) [
        | none ↦ some (no_condition relation ref.condition)
        | some c ↦ none
      ]

  -- The body of the loop over the related types.
  unfoldable pub validate_reference : Text → Text → RelationReference → Option TypesystemError
  unfolding get_relations validate_target validate_reference_condition
  validate_reference object_type relation ref = elim (get_relations t ref.object_type) [
    | err e ↦
        some (invalid_relation_type object_type relation ref.object_type (relation_of ref.target))
    | ok rs ↦
        also (validate_target object_type relation ref) (validate_reference_condition relation ref)
  ]

  abbrev is_empty : List RelationReference → Bool
  is_empty [] = true
  is_empty (ref ∷ refs) = false

  -- `validateTypeRestrictions`
  unfoldable pub validate_type_restrictions : Text → Text → Option TypesystemError
  unfolding get_relation is_directly_assignable validate_reference
  validate_type_restrictions object_type relation = elim (get_relation t object_type relation) [
    | err e ↦ some e
    | ok r ↦ elim (is_directly_assignable r) [
      | none ↦ some walk_error
      | some assignable ↦
          if assignable && is_empty r.directly_related
          then some (assignable_without_types object_type relation)
          else if not assignable && not (is_empty r.directly_related)
          then some (types_not_assignable object_type relation)
          else each_passes (validate_reference object_type relation) r.directly_related
    ]
  ]

  -- `validateConditions`: `name_of` is the name of a condition, `compile` the error of its compilation.
  unfoldable pub validate_conditions :
      (name_of : D → Text) (compile : D → Option TypesystemError) → Option TypesystemError
  validate_conditions name_of compile =
      each_passes
        (λ c. if text_eq c.0 (name_of c.1) then compile c.1 else some (condition_name_mismatch c.0))
        t.conditions
