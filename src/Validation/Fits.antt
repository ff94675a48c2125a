-- ===== src/Validation/Fits.antt =====
-- internal/validation/validation.go: what each check says of a tuple that passes it.
use kengen.Base.{
  Text, text_eq, ◌≡◌, ◌⊎◌, refl, Bool, true, false, Option, none, some, List, [], inl, inr, any,
  Bool-cases, Option-cases,
}
use kengen.Tuple.Key.{TupleKey, RelationshipCondition, condition_name}
use kengen.Tuple.Split.{split_object, get_type, wildcard, is_wildcard}
use kengen.Tuple.Valid.{is_valid_object, is_valid_user, is_object_relation, is_valid_userset}
use kengen.Tuple.Grammar.{ObjectForm, ObjectForm-sound}
use kengen.Tuple.Userset.{UsersetForm, UsersetForm-sound}
use kengen.Typesystem.Model.{
  RelationReference, Relation, TypeSystem, lookup, is_schema_version_supported,
}
use kengen.Typesystem.Lookup.{
  ok, get_relation, get_directly_related_user_types, is_tupleset_relation,
}
use kengen.Typesystem.Cycles.Sound.{Checked-cases}
use kengen.Validation.Struct.{Value, Fields, contains_forbidden_chars}
use kengen.Validation.Users.{Cause, condition_missing, first_cause, validate_user, validate_object}
use kengen.Validation.Conditions.{
  restriction_allows, passes, check_of, validate_named_condition, check_condition,
  validate_condition,
}
use kengen.Validation.Tuples.{is_rewritten, validate_tupleset_user, validate_tupleset_restrictions}

pub first_cause-both : (a b : Option Cause) → first_cause a b ≡ none → (a ≡ none) × (b ≡ none)
first_cause-both none b h = (refl, h)
first_cause-both (some e) b h = (h, cc)

some-none : {e : Cause} → ◌≡◌ {A = Option Cause} (some e) none → ⊥
some-none h = cc

module _ {D : Type 0} (typesys : TypeSystem D) where
  -- A valid user of a supported model is an object or a userset.
  pub validate_user-none :
      (user : Text)
      → is_schema_version_supported typesys.schema_version ≡ true
      → validate_user typesys user ≡ none
      → ObjectForm user ⊎ UsersetForm user
  unfolding validate_user is_object_relation
  validate_user-none user supported h = elim (Bool-cases (is_valid_object user)) [
    | inl o ↦ inl (ObjectForm-sound user o)
    | inr n ↦ elim (Bool-cases (is_valid_userset user)) [
      | inl u ↦ inr (UsersetForm-sound user u)
      | inr m ↦ elim (Bool-cases (is_valid_user user)) [
        | inr v ↦ absurd (some-none (rw (validate_user, v) at h))
        | inl v ↦
            absurd (some-none (rw (validate_user, v, supported, n, is_object_relation, m) at h))
      ]
    ]
  ]

  pub validate_object-none :
      {C : Type 0} (tk : TupleKey C)
      → validate_object typesys tk ≡ none
      → (is_valid_object tk.object ≡ true) × (text_eq (split_object tk.object).1 wildcard ≡ false)
  unfolding validate_object
  validate_object-none tk h = elim (Bool-cases (is_valid_object tk.object)) [
    | inr e ↦ absurd (some-none (rw (validate_object, e) at h))
    | inl e ↦ elim (Bool-cases (text_eq (split_object tk.object).1 wildcard)) [
      | inl k ↦ absurd (some-none (rw (validate_object, e, k) at h))
      | inr k ↦ (e, k)
    ]
  ]

  -- The user of a tupleset relation is one object.
  abbrev pub OneObject : Text → Type 0
  OneObject user = ObjectForm user × (is_wildcard user ≡ false)

  validate_tupleset_user-none :
      (user : Text) (d : Relation) → validate_tupleset_user typesys user d ≡ none → OneObject user
  unfolding validate_tupleset_user
  validate_tupleset_user-none user d h = elim (Bool-cases (is_rewritten d.rewrite)) [
    | inl e ↦ absurd (some-none (rw (validate_tupleset_user, e) at h))
    | inr e ↦ elim (Bool-cases (is_wildcard user)) [
      | inl w ↦ absurd (some-none (rw (validate_tupleset_user, e, w) at h))
      | inr w ↦ elim (Bool-cases (is_valid_object user)) [
        | inl o ↦ (ObjectForm-sound user o, w)
        | inr o ↦ absurd (some-none (rw (validate_tupleset_user, e, w, o) at h))
      ]
    ]
  ]

  pub validate_tupleset_restrictions-none :
      {C : Type 0} (tk : TupleKey C) (d : Relation)
      → get_relation typesys (get_type tk.object) tk.relation ≡ ok d
      → validate_tupleset_restrictions typesys tk ≡ none
      → (is_tupleset_relation typesys (get_type tk.object) tk.relation ≡ ok false)
        ⊎ OneObject tk.user
  unfolding validate_tupleset_restrictions
  validate_tupleset_restrictions-none tk d there h =
      elim (Checked-cases (is_tupleset_relation typesys (get_type tk.object) tk.relation)) [
        | inl (e, k) ↦ absurd (some-none (rw (validate_tupleset_restrictions, k) at h))
        | inr (false, k) ↦ inl k
        | inr (true, k) ↦ inr (
            validate_tupleset_user-none tk.user d
              (rw (validate_tupleset_restrictions, k, there) at h))
      ]

module _ {D P : Type 0} (parameters : D → List (Text × P)) (convert : P → Value → Bool)
    (typesys : TypeSystem D) where
  validate_named_condition-none :
      (user : Text) (refs : List RelationReference) (c : RelationshipCondition Fields)
      → validate_named_condition parameters convert typesys user refs c ≡ none
      → any (restriction_allows c.name user) refs ≡ true
  unfolding validate_named_condition
  validate_named_condition-none user refs c h =
      elim (Bool-cases (contains_forbidden_chars c.name)) [
        | inl e ↦ absurd (some-none (rw (validate_named_condition, e) at h))
        | inr e ↦ elim (Option-cases (lookup c.name typesys.conditions)) [
          | inl k ↦ absurd (some-none (rw (validate_named_condition, e, k) at h))
          | inr (d, k) ↦ elim (Bool-cases (any (restriction_allows c.name user) refs)) [
            | inl a ↦ a
            | inr a ↦ absurd (some-none (rw (validate_named_condition, e, k, a) at h))
          ]
        ]
      ]

  check_of-passes : (o : Option Cause) → check_of o ≡ passes → o ≡ none
  check_of-passes none h = refl
  check_of-passes (some e) h = cc

  check_condition-passes :
      (user : Text) (refs : List RelationReference) (o : Option (RelationshipCondition Fields))
      → check_condition parameters convert typesys user refs o ≡ passes
      → any (restriction_allows (condition_name o) user) refs ≡ true
  unfolding check_condition
  check_condition-passes user refs none h =
      elim (Bool-cases (any (restriction_allows [] user) refs)) [
        | inl e ↦ e
        | inr e ↦
            absurd
              (some-none (check_of-passes (some condition_missing) (rw (check_condition, e) at h)))
      ]
  check_condition-passes user refs (some c) h =
      validate_named_condition-none user refs c
        (check_of-passes (validate_named_condition parameters convert typesys user refs c) h)

  -- Some restriction of the relation allows the user with the condition.
  pub validate_condition-passes :
      (tk : TupleKey Fields) (d : Relation)
      → get_relation typesys (get_type tk.object) tk.relation ≡ ok d
      → validate_condition parameters convert typesys tk ≡ passes
      → any (restriction_allows (condition_name tk.condition) tk.user) d.directly_related ≡ true
  unfolding validate_condition get_directly_related_user_types
  validate_condition-passes tk d there h =
      check_condition-passes tk.user d.directly_related tk.condition
        (rw (validate_condition, get_directly_related_user_types, there) at h)
