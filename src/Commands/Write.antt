-- ===== src/Commands/Write.antt =====
-- pkg/server/commands/write.go: `WriteCommand`. The datastore, the type system, the validation of a tuple against it
-- and the size of a condition's context are parameters. `S` is the state of the datastore.
use kengen.Base.{
  ℕ, Text, text, text_eq, Bool, not, ◌&&◌, ◌||◌, Option, none, some, List, [], ◌∷◌, map, length,
  any, ltb, ◌==◌, ◌⊎◌, inl, inr, if◌then◌else◌,
}
use kengen.Tuple.Key.{
  TupleKey, TupleKeyWithoutCondition, condition_context, tuple_key_to_tuple_key_without_condition,
}
use kengen.Tuple.Split.{split_object_relation}
use kengen.Tuple.Valid.{is_valid_user}
use kengen.Tuple.Parse.{tuple_key_to_string}
use kengen.Storage.Record.{
  OnMissingDelete, missing_error, missing_ignore, OnDuplicateInsert, duplicate_error,
  duplicate_ignore, TupleWriteOption, with_on_missing_delete, with_on_duplicate_insert,
  StorageError, not_found, Result, ok, err,
}

-- `openfgav1.WriteRequest`: the deletes and the writes with their options.
pub record WriteRequest (C : Type 0) : Type 0 where
  pub store_id : Text
  pub authorization_model_id : Text
  pub deletes : List TupleKeyWithoutCondition
  pub on_missing : Text
  pub writes : List (TupleKey C)
  pub on_duplicate : Text

-- The errors of the command. `V` is the type of the errors of the type system and its validation.
pub data WriteError (C V : Type 0) : Type 0 where
  invalid_on_duplicate invalid_on_missing : Text → WriteError C V
  invalid_write_input : WriteError C V  -- `ErrInvalidWriteInput`
  model_error : StorageError C → WriteError C V
  model_not_found : Text → WriteError C V
  unsupported_schema : WriteError C V
  invalid_model invalid_tuple : V → WriteError C V
  implicit_tuple : TupleKey C → WriteError C V
  context_too_large : TupleKey C → ℕ → ℕ → WriteError C V
  malformed_user : TupleKeyWithoutCondition → WriteError C V
  duplicate_tuple : TupleKeyWithoutCondition → WriteError C V
  exceeded_entity_limit : ℕ → WriteError C V
  write_failed : StorageError C → WriteError C V

unfoldable pub parse_option_on_duplicate :
    {C V : Type 0} → Text → OnDuplicateInsert × Option (WriteError C V)
parse_option_on_duplicate s =
    if text_eq s [] || text_eq s (text "error")
    then (duplicate_error, none)
    else if text_eq s (text "ignore")
    then (duplicate_ignore, none)
    else (duplicate_error, some (invalid_on_duplicate s))

unfoldable pub parse_option_on_missing :
    {C V : Type 0} → Text → OnMissingDelete × Option (WriteError C V)
parse_option_on_missing s =
    if text_eq s [] || text_eq s (text "error")
    then (missing_error, none)
    else if text_eq s (text "ignore")
    then (missing_ignore, none)
    else (missing_error, some (invalid_on_missing s))

-- `TupleKeyToString` of a key
abbrev pub key_string : TupleKeyWithoutCondition → Text
key_string tk = tuple_key_to_string tk.object tk.relation tk.user

-- A loop that adds the strings of the keys to `tuples`, up to a key that is there: the key, or the strings.
pub data Collected : Type 0 where
  collected : List Text → Collected
  repeated : TupleKeyWithoutCondition → Collected

unfoldable pub collect : List TupleKeyWithoutCondition → List Text → Collected
unfolding tuple_key_to_string
collect [] tuples = collected tuples
collect (tk ∷ tks) tuples =
    let rest = collect tks (key_string tk ∷ tuples) in
    if any (text_eq (key_string tk)) tuples then repeated tk else rest

module _ {C V : Type 0} where
  unfoldable pub validate_no_duplicates_and_correct_size :
      ℕ → List TupleKeyWithoutCondition → List (TupleKey C) → Option (WriteError C V)
  unfolding collect
  validate_no_duplicates_and_correct_size max_tuples deletes writes = elim (collect deletes []) [
    | repeated tk ↦ some (duplicate_tuple tk)
    | collected tuples ↦
        elim (collect (map tuple_key_to_tuple_key_without_condition writes) tuples) [
          | repeated tk ↦ some (duplicate_tuple tk)
          | collected tuples' ↦
              if ltb max_tuples (length tuples')
              then some (exceeded_entity_limit max_tuples)
              else none
        ]
  ]

  unfoldable pub validate_not_implicit : TupleKey C → Option (WriteError C V)
  unfolding split_object_relation
  validate_not_implicit tk =
      let u : Text × Text = split_object_relation tk.user in
      if text_eq tk.relation u.1 && text_eq tk.object u.0 then some (implicit_tuple tk) else none

  unfoldable pub validate_deletes : List TupleKeyWithoutCondition → Option (WriteError C V)
  unfolding is_valid_user
  validate_deletes [] = none
  validate_deletes (tk ∷ tks) =
      let rest = validate_deletes tks in
      if is_valid_user tk.user then rest else some (malformed_user tk)

  module _ {M Y S : Type 0} (read_authorization_model : Text → Text → Result C M)
      (is_schema_version_supported : M → Bool) (new_typesystem : M → V ⊎ Y)
      (validate_tuple_for_write : Y → TupleKey C → Option V) (context_size : Option C → ℕ)
      (context_byte_limit max_tuples : ℕ)
      (datastore_write : S
        → Text
        → List TupleKeyWithoutCondition
        → List (TupleKey C)
        → List TupleWriteOption
        → Result C S) where
    -- The checks of one tuple to write.
    unfoldable pub validate_write : Y → TupleKey C → Option (WriteError C V)
    unfolding validate_not_implicit
    validate_write typesys tk = elim (validate_tuple_for_write typesys tk) [
      | some v ↦ some (invalid_tuple v)
      | none ↦ elim (validate_not_implicit tk) [
        | some e ↦ some e
        | none ↦
            if ltb context_byte_limit (context_size (condition_context tk.condition))
            then some (
                context_too_large tk (context_size (condition_context tk.condition))
                  context_byte_limit)
            else none
      ]
    ]

    unfoldable pub validate_writes : Y → List (TupleKey C) → Option (WriteError C V)
    unfolding validate_write
    validate_writes typesys [] = none
    validate_writes typesys (tk ∷ tks) =
        let rest = validate_writes typesys tks in
        elim (validate_write typesys tk) [ some e ↦ some e | none ↦ rest ]

    -- The part of `validateWriteRequest` that runs if there is a tuple to write.
    unfoldable pub validate_against_model : WriteRequest C → Option (WriteError C V)
    unfolding validate_writes
    validate_against_model req =
        elim (read_authorization_model req.store_id req.authorization_model_id) [
          | err not_found ↦ some (model_not_found req.authorization_model_id)
          | err e ↦ some (model_error e)
          | ok m ↦
              if not (is_schema_version_supported m)
              then some unsupported_schema
              else elim (new_typesystem m) [
                | inl v ↦ some (invalid_model v)
                | inr typesys ↦ validate_writes typesys req.writes
              ]
        ]

    unfoldable pub first_failure :
        Option (WriteError C V) → Option (WriteError C V) → Option (WriteError C V)
    first_failure (some e) other = some e
    first_failure none other = other

    -- `validateWriteRequest`
    unfoldable pub validate_write_request : WriteRequest C → Option (WriteError C V)
    unfolding validate_against_model first_failure validate_deletes
        validate_no_duplicates_and_correct_size
    validate_write_request req =
        if (length req.deletes == 0) && (length req.writes == 0)
        then some invalid_write_input
        else first_failure (if ltb 0 (length req.writes) then validate_against_model req else none)
            (first_failure (validate_deletes req.deletes)
              (validate_no_duplicates_and_correct_size max_tuples req.deletes req.writes))

    -- `Execute`
    unfoldable pub execute : S → WriteRequest C → WriteError C V ⊎ S
    unfolding validate_write_request parse_option_on_duplicate parse_option_on_missing
    execute s req = elim (validate_write_request req) [
      | some e ↦ inl e
      | none ↦
          let d : OnDuplicateInsert × Option (WriteError C V) =
            parse_option_on_duplicate req.on_duplicate in
          let m : OnMissingDelete × Option (WriteError C V) =
            parse_option_on_missing req.on_missing in
          elim d.1 [
            | some e ↦ inl e
            | none ↦ elim m.1 [
              | some e ↦ inl e
              | none ↦
                  elim (datastore_write s req.store_id req.deletes req.writes
                    (with_on_missing_delete m.0 ∷ with_on_duplicate_insert d.0 ∷ [])) [
                      | err e ↦ inl (write_failed e)
                      | ok s' ↦ inr s'
                    ]
            ]
          ]
    ]
