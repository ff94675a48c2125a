-- ===== src/Validation/Accepted.antt =====
-- internal/validation/validation.go: what a tuple has that may be written.
use kengen.Base.{
  Text, text_eq, ◌≡◌, ◌⊎◌, refl, Bool, true, false, Option, none, some, List, Memᴰ, inl, inr,
  any-one,
}
use kengen.Tuple.Key.{TupleKey, condition_name}
use kengen.Tuple.Split.{split_object, get_type, wildcard}
use kengen.Tuple.Valid.{is_valid_object}
use kengen.Typesystem.Model.{RelationReference, Relation, TypeSystem, is_schema_version_supported}
use kengen.Typesystem.Lookup.{ok, get_relation, has_type_info, is_tupleset_relation}
use kengen.Typesystem.Cycles.Sound.{Checked-cases}
use kengen.Validation.Struct.{Value, Fields}
use kengen.Validation.Users.{
  Cause, validate_user, validate_object, validate_relation, validate_user_object_relation,
}
use kengen.Validation.Conditions.{
  ConditionCheck, passes, refused, failed, restriction_allows, validate_condition,
}
use kengen.Validation.Tuples.{
  ValidationError, validate_tupleset_restrictions, validate_type_restrictions, as_invalid,
  of_condition, validate_tuple_for_read, validate_tuple_for_write,
}
use kengen.Validation.Shapes.{Shape, restriction_allows-Shape}
use kengen.Validation.Fits.{
  first_cause-both, validate_user-none, validate_object-none, OneObject,
  validate_tupleset_restrictions-none, validate_condition-passes,
}

as_invalid-both :
    (e : Option Cause) (next : Option ValidationError)
    → as_invalid e next ≡ none
    → (e ≡ none) × (next ≡ none)
as_invalid-both none next h = (refl, h)
as_invalid-both (some e) next h = (cc, cc)

of_condition-none : (c : ConditionCheck) → of_condition c ≡ none → c ≡ passes
of_condition-none passes h = refl
of_condition-none (refused e) h = cc
of_condition-none (failed e) h = cc

module _ {D P : Type 0} (parameters : D → List (Text × P)) (convert : P → Value → Bool)
    (typesys : TypeSystem D) where
  some-none : {e : ValidationError} → ◌≡◌ {A = Option ValidationError} (some e) none → ⊥
  some-none h = cc

  -- Some restriction of the relation has the shape of the tuple's user and the name of its condition.
  abbrev pub Related : TupleKey Fields → Type 0
  Related tk =
      (d : Relation) × (ref : RelationReference) × (get_relation typesys (get_type tk.object)
          tk.relation
        ≡ ok d)
      × Memᴰ ref d.directly_related
      × Shape ref.target ref.object_type tk.user
      × (ref.condition ≡ condition_name tk.condition)

  -- A tuple that may be written.
  abbrev pub Writable : TupleKey Fields → Type 0
  Writable tk =
      (is_valid_object tk.object ≡ true)
      × (text_eq (split_object tk.object).1 wildcard ≡ false)
      × Related tk
      × ((is_tupleset_relation typesys (get_type tk.object) tk.relation ≡ ok false)
          ⊎ OneObject typesys tk.user)

  -- If `ValidateTupleForWrite` accepts a tuple, in a model of a supported schema version, then its object is valid and no
  -- wildcard; some type restriction of its relation has the tuple's condition, and the user is of the shape that
  -- restriction allows: an object of the type, the wildcard of the type, or a userset of the type and relation; and where
  -- the relation is a tupleset, the user is one object.
  pub validate_tuple_for_write-Writable :
      (tk : TupleKey Fields)
      → is_schema_version_supported typesys.schema_version ≡ true
      → validate_tuple_for_write parameters convert typesys tk ≡ none
      → Writable tk
  unfolding validate_tuple_for_write validate_tuple_for_read validate_user_object_relation
      has_type_info
  validate_tuple_for_write-Writable tk supported h =
      let (h1, h2) =
        as_invalid-both (validate_user_object_relation typesys tk)
          (validate_tuple_for_read parameters convert typesys tk) h in
      let (user, others) = first_cause-both (validate_user typesys tk.user) _ h1 in
      let (object, rel) =
        first_cause-both (validate_object typesys tk) (validate_relation typesys tk) others in
      let (h3, h4) = as_invalid-both (validate_tupleset_restrictions typesys tk) _ h2 in
      let (valid_object, not_wild) = validate_object-none typesys tk object in
      elim (Checked-cases (get_relation typesys (get_type tk.object) tk.relation)) [
        | inl (e, k) ↦ absurd (some-none (rw (has_type_info, k) at h4))
        | inr (d, k) ↦
            let (h5, h6) =
              as_invalid-both (validate_type_restrictions typesys tk) _
                (rw (has_type_info, k, supported) at h4) in
            let c = of_condition-none (validate_condition parameters convert typesys tk) h6 in
            let (ref, m, allowed) =
              any-one (restriction_allows (condition_name tk.condition) tk.user) d.directly_related
                (validate_condition-passes parameters convert typesys tk d k c) in
            let (shape, cond) =
              restriction_allows-Shape ref (condition_name tk.condition) tk.user
                (validate_user-none typesys tk.user supported user) allowed in
            (
              valid_object,
              not_wild,
              (d, ref, k, m, shape, cond),
              validate_tupleset_restrictions-none typesys tk d k h3,
            )
      ]
