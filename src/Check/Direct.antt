-- ===== src/Check/Direct.antt =====
-- internal/graph/check.go and internal/checkutil: the reads of a check, and the handlers that need no other check.
-- What a filtered iterator gives is the answer of Storage.Iterators.Answer on the list that it reads.
use kengen.Base.{Bool, true, false, not, none, List, [], ◌∷◌, map, filter, if◌then◌else◌}
use kengen.Tuple.Key.{TupleKey}
use kengen.Tuple.Split.{get_type}
use kengen.Tuple.Split
use kengen.Tuple.Valid.{is_object_relation}
use kengen.Storage.Record.{TupleRecord, as_tuple, Result, not_found}
use kengen.Storage.Record
use kengen.Storage.Memory.Read.{ReadUsersetTuplesFilter, read_user_tuple, read_userset_tuples}
use kengen.Storage.Iterators.Ops.{item, done, fault}
use kengen.Storage.Iterators.Conditions.{tested, test_error}
use kengen.Storage.Iterators.Answer.{conditions_answer}
use kengen.Typesystem.Model.{RelationReference, relation_of}
use kengen.Typesystem.Lookup.{
  Checked, ok, err, direct_relation_reference, wildcard_relation_reference, is_directly_related,
  is_publicly_assignable, directly_related_usersets,
}
use kengen.Validation.Struct.{Fields, no_fields}
use kengen.Validation.Tuples.{filter_invalid_tuples}
use kengen.Check.Response.{responded}
use kengen.Check.Reduce.{plain_response}
use kengen.Check.Request.{
  CheckRequest, datastore_error, condition_error, Outcome, fault_outcome, Checker,
}

-- The keys of the tuples of records.
abbrev pub keys_of : List (TupleRecord Fields) → List (TupleKey Fields)
keys_of = map (λ r. (as_tuple no_fields r).key)

-- `b, _ := …`
abbrev pub or_false : Checked Bool → Bool
or_false (ok b) = b
or_false (err e) = false

abbrev pub or_no_references : Checked (List RelationReference) → List RelationReference
or_no_references (ok refs) = refs
or_no_references (err e) = []

-- The restriction that `checkPublicAssignable` reads by.
abbrev pub everyone_reference : CheckRequest → List RelationReference
everyone_reference req = wildcard_relation_reference (get_type req.user) ∷ []

module _ {D P V : Type 0} (c : Checker D P V) where
  -- The keys that `validation.FilterInvalidTuples` lets through.
  abbrev pub valid_keys : List (TupleKey Fields) → List (TupleKey Fields)
  valid_keys = filter (filter_invalid_tuples c.parameters c.convert c.typesys)

  abbrev pub userset_filter : CheckRequest → List RelationReference → ReadUsersetTuplesFilter
  userset_filter req refs = record {
    object = req.object;
    relation = req.relation;
    allowed_user_type_restrictions = map (λ ref. (ref.object_type, relation_of ref.target)) refs;
    conditions = [];
  }

  -- The records that `ReadUsersetTuples` finds for the request with these restrictions.
  abbrev pub userset_records : CheckRequest → List RelationReference → List (TupleRecord Fields)
  userset_records req refs =
      (read_userset_tuples c.datastore req.store_id (userset_filter req refs)).records

  -- `checkPublicAssignable`
  unfoldable pub check_public_assignable : CheckRequest → Outcome V
  unfolding wildcard_relation_reference read_userset_tuples
  check_public_assignable req =
      elim (conditions_answer c.condition_met
        (valid_keys (keys_of (userset_records req (everyone_reference req)))) false none) [
          | item tk ↦ responded (plain_response true)
          | done ↦ responded (plain_response false)
          | fault e ↦ fault_outcome (condition_error e)
        ]

  -- What `checkDirectUserTuple` does with the tuple it has read.
  unfoldable pub check_found : TupleKey Fields → Outcome V
  check_found tk =
      if not (filter_invalid_tuples c.parameters c.convert c.typesys tk)
      then responded (plain_response false)
      else elim (c.condition_met tk) [
        | test_error e ↦ fault_outcome (condition_error e)
        | tested b ↦ responded (plain_response b)
      ]

  -- `checkDirectUserTuple`
  unfoldable pub check_direct_user_tuple : CheckRequest → Outcome V
  unfolding read_user_tuple check_found
  check_direct_user_tuple req =
      elim (read_user_tuple no_fields c.datastore req.store_id (record {
        object = req.object;
        relation = req.relation;
        user = req.user;
        conditions = [];
      })) [
        | Record.err not_found ↦ responded (plain_response false)
        | Record.err e ↦ fault_outcome (datastore_error e)
        | Record.ok t ↦ check_found t.key
      ]

  -- `shouldCheckDirectTuple`
  unfoldable pub should_check_direct_tuple : CheckRequest → Bool
  unfolding is_directly_related direct_relation_reference get_type Split.get_relation
  should_check_direct_tuple req = or_false (
      is_directly_related c.typesys (direct_relation_reference (get_type req.object) req.relation)
        (direct_relation_reference (get_type req.user) (Split.get_relation req.user)))

  -- `shouldCheckPublicAssignable`
  unfoldable pub should_check_public_assignable : CheckRequest → Bool
  unfolding is_object_relation is_publicly_assignable direct_relation_reference get_type
  should_check_public_assignable req =
      if is_object_relation req.user
      then false
      else or_false (
          is_publicly_assignable c.typesys
            (direct_relation_reference (get_type req.object) req.relation) (get_type req.user))

  -- The usersets that the relation of the request is directly related to.
  abbrev pub request_usersets : CheckRequest → List RelationReference
  request_usersets req =
      or_no_references (directly_related_usersets c.typesys (get_type req.object) req.relation)
