-- ===== src/Validation/Users.antt =====
-- internal/validation/validation.go: the user, the object and the relation of a tuple.
use kengen.Base.{Text, text_eq, not, ◌&&◌, Option, none, some, if◌then◌else◌}
use kengen.Tuple.Key.{TupleKey}
use kengen.Tuple.Split.{wildcard, split_object, split_object_relation, get_type}
use kengen.Tuple.Valid.{is_valid_object, is_valid_relation, is_valid_user, is_object_relation}
use kengen.Typesystem.Model.{TypeSystem, is_schema_version_supported}
use kengen.Typesystem.Lookup.{
  TypesystemError, object_type_undefined, relation_undefined, ok, err, get_type_definition,
  get_relation,
}
use kengen.Validation.Struct.{StructError}

-- Why a tuple is refused.
pub data Cause : Type 0 where
  malformed_user user_not_typed malformed_object object_is_wildcard malformed_relation : Cause
  type_not_found : Text → Cause
  relation_not_found : (relation : Text) (object_type : Text) → Cause
  of_typesystem : TypesystemError → Cause
  tupleset_with_rewrite tupleset_with_wildcard tupleset_user : Cause
  no_object_type restriction : Cause
  condition_missing forbidden_condition_name undefined_condition condition_refused : Cause
  forbidden_context : StructError → Cause
  bad_parameters : Cause
  undeclared_parameter : Text → Cause

abbrev pub first_cause : Option Cause → Option Cause → Option Cause
first_cause (some e) next = some e
first_cause none next = next

module _ {D : Type 0} (typesys : TypeSystem D) where
  abbrev pub type_found : Text → Option Cause
  type_found object_type = elim (get_type_definition typesys object_type) [
    | none ↦ some (type_not_found object_type)
    | some td ↦ none
  ]

  -- The error of the relation of a userset: any other error is passed over.
  unfoldable pub userset_relation : Text → Text → Option Cause
  unfolding get_relation
  userset_relation object_type relation = elim (get_relation typesys object_type relation) [
    | ok r ↦ none
    | err (object_type_undefined ty) ↦ some (type_not_found object_type)
    | err (relation_undefined ty r) ↦ some (relation_not_found relation object_type)
    | err e ↦ none
  ]

  -- `ValidateUser`
  unfoldable pub validate_user : Text → Option Cause
  unfolding is_valid_user is_valid_object is_object_relation split_object_relation get_type
      userset_relation
  validate_user user =
      let u = split_object_relation user in
      let user_type = get_type u.0 in
      let relation_cause =
        if is_object_relation user then userset_relation user_type u.1 else none in
      if not (is_valid_user user)
      then some malformed_user
      else if is_schema_version_supported typesys.schema_version
      then (if not (is_valid_object user) && not (is_object_relation user)
          then some user_not_typed
          else first_cause (type_found user_type) relation_cause)
      else relation_cause

  -- `ValidateObject`
  unfoldable pub validate_object : {C : Type 0} → TupleKey C → Option Cause
  unfolding is_valid_object split_object
  validate_object tk =
      let o = split_object tk.object in
      if not (is_valid_object tk.object)
      then some malformed_object
      else if text_eq o.1 wildcard
      then some object_is_wildcard
      else type_found o.0

  -- `ValidateRelation`
  unfoldable pub validate_relation : {C : Type 0} → TupleKey C → Option Cause
  unfolding is_valid_relation get_type get_relation
  validate_relation tk =
      let object_type = get_type tk.object in
      if not (is_valid_relation tk.relation)
      then some malformed_relation
      else elim (get_relation typesys object_type tk.relation) [
        | ok r ↦ none
        | err (object_type_undefined ty) ↦ some (type_not_found object_type)
        | err (relation_undefined ty r) ↦ some (relation_not_found tk.relation object_type)
        | err e ↦ some (of_typesystem e)
      ]

  -- `ValidateUserObjectRelation`
  unfoldable pub validate_user_object_relation : {C : Type 0} → TupleKey C → Option Cause
  unfolding validate_user validate_object validate_relation
  validate_user_object_relation tk =
      first_cause (validate_user tk.user) (first_cause (validate_object tk) (validate_relation tk))
