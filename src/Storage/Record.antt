-- ===== src/Storage/Record.antt =====
-- pkg/storage/record.go, pkg/storage/errors.go and the write options of pkg/storage/storage.go.
-- A ULID and a time are numbers. `C` is the type of a condition's context.
use kengen.Base.{ℕ, Text, text_eq, Option, List, [], if◌then◌else◌, foldl, ◌≡◌, ◌⊎◌, inl, inr, refl}
use kengen.Tuple.Key.{TupleKey, TupleKeyWithoutCondition, new_tuple_key_with_condition}
use kengen.Tuple.Split.{build_object, from_user_parts}

pub record TupleRecord (C : Type 0) : Type 0 where
  pub store : Text
  pub object_type : Text
  pub object_id : Text
  pub relation : Text
  pub user : Text
  pub user_object_type : Text
  pub user_object_id : Text
  pub user_relation : Text
  pub condition_name : Text
  pub condition_context : Option C
  pub ulid : ℕ
  pub inserted_at : ℕ

-- `openfgav1.Tuple`
pub record Tuple (C : Type 0) : Type 0 where
  pub key : TupleKey C
  pub timestamp : ℕ

-- `empty_struct` is `&structpb.Struct{}`
unfoldable pub as_tuple : {C : Type 0} → C → TupleRecord C → Tuple C
as_tuple empty_struct t = record {
  key =
      new_tuple_key_with_condition empty_struct (build_object t.object_type t.object_id) t.relation
        (if text_eq t.user []
          then from_user_parts t.user_object_type t.user_object_id t.user_relation
          else t.user)
        t.condition_name t.condition_context;
  timestamp = t.inserted_at;
}

pub data OnMissingDelete : Type 0 where
  missing_error missing_ignore : OnMissingDelete

pub data OnDuplicateInsert : Type 0 where
  duplicate_error duplicate_ignore : OnDuplicateInsert

pub record TupleWriteOptions : Type 0 where
  pub on_missing_delete : OnMissingDelete
  pub on_duplicate_insert : OnDuplicateInsert

-- `TupleWriteOption`
abbrev pub TupleWriteOption : Type 0
TupleWriteOption = TupleWriteOptions → TupleWriteOptions

abbrev pub with_on_missing_delete : OnMissingDelete → TupleWriteOption
with_on_missing_delete o opts = record opts { on_missing_delete = o }

abbrev pub with_on_duplicate_insert : OnDuplicateInsert → TupleWriteOption
with_on_duplicate_insert o opts = record opts { on_duplicate_insert = o }

unfoldable pub new_tuple_write_options : List TupleWriteOption → TupleWriteOptions
new_tuple_write_options =
    foldl (λ res opt. opt res)
      (record { on_missing_delete = missing_error; on_duplicate_insert = duplicate_error })

-- `openfgav1.TupleOperation`
pub data TupleOperation : Type 0 where
  operation_write operation_delete : TupleOperation

-- The errors of the datastore. The messages are left out, the tuple key that they name is kept.
pub data StorageError (C : Type 0) : Type 0 where
  not_found collision invalid_continuation_token : StorageError C
  invalid_write_input : TupleOperation → TupleKeyWithoutCondition → StorageError C
  tuple_condition_conflict : TupleKey C → StorageError C
  context_error : StorageError C  -- `ctx.Err()`
  iterator_done : StorageError C  -- `ErrIteratorDone`
  bad_integer : StorageError C  -- the error of `strconv.Atoi`
  slice_panic : StorageError C  -- a slice expression out of range

pub data Result {ℓ} (C : Type 0) (A : Type ℓ) : Type ℓ where
  ok : A → Result C A
  err : StorageError C → Result C A

-- `openfgav1.TupleChange`
pub record TupleChange (C : Type 0) : Type 0 where
  pub tuple_key : TupleKey C
  pub operation : TupleOperation
  pub timestamp : ℕ

-- `tupleChangeRec`
pub record TupleChangeRec (C : Type 0) : Type 0 where
  pub change : TupleChange C
  pub ulid : ℕ

pub Result-cases {ℓ} :
    {C : Type 0} {A : Type ℓ} (r : Result C A)
    → ((a : A) × (r ≡ ok a)) ⊎ ((e : StorageError C) × (r ≡ err e))
Result-cases (ok a) = inl (a, refl)
Result-cases (err e) = inr (e, refl)
