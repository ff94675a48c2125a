-- ===== src/Typesystem/Lookup.antt =====
-- pkg/typesystem/typesystem.go: the relations and the related types of a type system.
use kengen.Base.{
  Text, text_eq, Bool, true, false, not, ◌&&◌, Option, none, some, List, [], ◌∷◌, ◌++◌, any, filter,
  find, if◌then◌else◌,
}
use kengen.Tuple.Split.{typed_public_wildcard}
use kengen.Typesystem.Model.{
  neither, wildcard, nil_wildcard, of_relation, RelationReference, relation_of, has_wildcard,
  has_target, Relation, TypeDefinition, TypeSystem, lookup, is_schema_version_supported,
}

-- The errors of the type system, one for each error type with its cause.
pub data TypesystemError : Type 0 where
  object_type_undefined : Text → TypesystemError
  relation_undefined : (object_type : Text) (relation : Text) → TypesystemError
  unsupported_rewrite : TypesystemError
  invalid_schema_version duplicate_types empty_type_name : TypesystemError
  reserved_type : Text → TypesystemError
  empty_relation_name : Text → TypesystemError
  reserved_relation invalid_rewrite no_entrypoints no_entrypoints_loop cycle :
      (object_type : Text) (relation : Text) → TypesystemError
  tupleset_not_direct computed_not_related :
      (object_type : Text) (relation : Text) → TypesystemError
  assignable_without_types types_not_assignable :
      (object_type : Text) (relation : Text) → TypesystemError
  invalid_relation_type :
      (object_type relation related_type related_relation : Text) → TypesystemError
  empty_relation_reference : (object_type relation related_type : Text) → TypesystemError
  no_condition : (relation : Text) (condition : Text) → TypesystemError
  invalid_type_restriction : (object_type : Text) (relation : Text) → TypesystemError
  condition_name_mismatch : Text → TypesystemError
  walk_error too_few_operands nil_rewrite : TypesystemError
  undefined_entry : (object_type : Text) (relation : Text) → TypesystemError
  no_result : TypesystemError  -- the fuel is out

pub data Checked {ℓ} (A : Type ℓ) : Type ℓ where
  ok : A → Checked A
  err : TypesystemError → Checked A

-- `t.relations[objectType]`, the empty map for a type that is not there
abbrev pub or_no_relations : Option (List (Text × Relation)) → List (Text × Relation)
or_no_relations none = []
or_no_relations (some rs) = rs

module _ {D : Type 0} where
  -- `GetTypeDefinition`
  abbrev pub get_type_definition : TypeSystem D → Text → Option TypeDefinition
  get_type_definition t object_type = lookup object_type t.type_definitions

  unfoldable pub get_relations : TypeSystem D → Text → Checked (List (Text × Relation))
  get_relations t object_type = elim (get_type_definition t object_type) [
    | none ↦ err (object_type_undefined object_type)
    | some td ↦ ok (or_no_relations (lookup object_type t.relations))
  ]

  unfoldable pub get_relation : TypeSystem D → Text → Text → Checked Relation
  unfolding get_relations
  get_relation t object_type relation = elim (get_relations t object_type) [
    | err e ↦ err e
    | ok rs ↦ elim (lookup relation rs) [
      | none ↦ err (relation_undefined object_type relation)
      | some r ↦ ok r
    ]
  ]

  unfoldable pub get_directly_related_user_types :
      TypeSystem D → Text → Text → Checked (List RelationReference)
  unfolding get_relation
  get_directly_related_user_types t object_type relation =
      elim (get_relation t object_type relation) [ err e ↦ err e | ok r ↦ ok r.directly_related ]

  unfoldable pub directly_related_usersets :
      TypeSystem D → Text → Text → Checked (List RelationReference)
  unfolding get_directly_related_user_types
  directly_related_usersets t object_type relation =
      elim (get_directly_related_user_types t object_type relation) [
        | err e ↦ err e
        | ok refs ↦ ok (filter (λ ref. not (text_eq (relation_of ref.target) [])) refs)
      ]

  -- `HasTypeInfo`: `newWithoutGraphs` gives every relation a type info.
  unfoldable pub has_type_info : TypeSystem D → Text → Text → Checked Bool
  unfolding get_relation
  has_type_info t object_type relation = elim (get_relation t object_type relation) [
    | err e ↦ err e
    | ok r ↦ ok (is_schema_version_supported t.schema_version)
  ]

  -- `IsTuplesetRelation`
  unfoldable pub is_tupleset_relation : TypeSystem D → Text → Text → Checked Bool
  unfolding get_relation
  is_tupleset_relation t object_type relation = elim (get_relation t object_type relation) [
    | err e ↦ err e
    | ok r ↦ elim (lookup object_type t.ttu_relations) [
      | none ↦ ok false
      | some definitions ↦ ok (any (λ d. any (λ ttu. text_eq ttu.0 relation) d.1) definitions)
    ]
  ]

-- `RelationEquals`
unfoldable pub relation_equals : RelationReference → RelationReference → Bool
relation_equals a b =
    if not (text_eq a.object_type b.object_type)
    then false
    else if not (has_target a.target) && not (has_target b.target)
    then true
    else if has_wildcard a.target && has_wildcard b.target
    then true
    else not (text_eq (relation_of a.target) [])
      && (not (text_eq (relation_of b.target) [])
          && text_eq (relation_of a.target) (relation_of b.target))

-- `GetRelationReferenceAsString`; `none` is its panic.
unfoldable pub get_relation_reference_as_string : RelationReference → Option Text
get_relation_reference_as_string rr = elim rr.target [
  | neither ↦ none
  | wildcard ↦ some (typed_public_wildcard rr.object_type)
  | nil_wildcard ↦ some (typed_public_wildcard rr.object_type)
  | of_relation r ↦ some (rr.object_type ++ (b'#' ∷ r))
]

-- `DirectRelationReference`, `WildcardRelationReference` and `ConditionedRelationReference`
unfoldable pub direct_relation_reference : Text → Text → RelationReference
direct_relation_reference object_type relation = record {
  object_type = object_type;
  target = if text_eq relation [] then neither else of_relation relation;
  condition = [];
}

unfoldable pub wildcard_relation_reference : Text → RelationReference
wildcard_relation_reference object_type = record {
  object_type = object_type;
  target = wildcard;
  condition = [];
}

unfoldable pub conditioned_relation_reference : RelationReference → Text → RelationReference
conditioned_relation_reference rel condition = record rel { condition = condition }

module _ {D : Type 0} where
  -- `IsDirectlyRelated`
  unfoldable pub is_directly_related :
      TypeSystem D → RelationReference → RelationReference → Checked Bool
  unfolding get_relation relation_equals
  is_directly_related t target source =
      elim (get_relation t target.object_type (relation_of target.target)) [
        | err e ↦ err e
        | ok r ↦ ok (any (relation_equals source) r.directly_related)
      ]

  -- `PubliclyAssignableReferences`
  unfoldable pub publicly_assignable_references :
      TypeSystem D → RelationReference → Text → Checked (Option RelationReference)
  unfolding get_relation
  publicly_assignable_references t target object_type =
      elim (get_relation t target.object_type (relation_of target.target)) [
        | err e ↦ err e
        | ok r ↦ ok (
            find (λ ref. text_eq ref.object_type object_type && has_wildcard ref.target)
              r.directly_related)
      ]

  -- `IsPubliclyAssignable`
  unfoldable pub is_publicly_assignable : TypeSystem D → RelationReference → Text → Checked Bool
  unfolding publicly_assignable_references
  is_publicly_assignable t target object_type =
      elim (publicly_assignable_references t target object_type) [
        | err e ↦ err e
        | ok none ↦ ok false
        | ok (some ref) ↦ ok true
      ]
