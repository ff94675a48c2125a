-- ===== src/Storage/Memory/Write.antt =====
-- pkg/storage/memory/memory.go: the tuples and the changelog of a store, and `Write`.
-- The maps from a store id are functions; a missing key is the empty slice. `mint k` is the ULID
-- that the k-th call of `ulid.MustNew` in this `Write` gives, and `now` the time it reads.
use kengen.Base.{
  ℕ, suc, ◌==◌, Text, text_eq, Bool, false, not, ◌&&◌, ◌||◌, Option, none, some, List, [], ◌∷◌,
  ◌++◌, any, if◌then◌else◌,
}
use kengen.Tuple.Key.{
  TupleKey, TupleKeyWithoutCondition, condition_name, condition_context, new_tuple_key,
  new_tuple_key_with_condition, tuple_key_without_condition_to_tuple_key,
  tuple_key_to_tuple_key_without_condition,
}
use kengen.Tuple.Split.{split_object, build_object}
use kengen.Storage.Record.{
  TupleRecord, as_tuple, OnMissingDelete, missing_error, missing_ignore, OnDuplicateInsert,
  duplicate_error, duplicate_ignore, TupleWriteOption, new_tuple_write_options, operation_write,
  operation_delete, invalid_write_input, tuple_condition_conflict, Result, ok, err, TupleChangeRec,
}
use kengen.Storage.Memory.Match.{matches, find_record}

-- The part of `MemoryBackend` that `mutexTuples` guards.
pub record TupleBackend (C : Type 0) : Type 0 where
  pub tuples : Text → List (TupleRecord C)
  pub changes : Text → List (TupleChangeRec C)

-- `m[key] = v`
abbrev pub update : {V : Type 0} → (Text → V) → Text → V → Text → V
update m key v j = if text_eq j key then v else m j

-- `slices.Contains` of an index
abbrev pub contains : List ℕ → ℕ → Bool
contains xs i = any (λ x. x == i) xs

-- What the two loops of `Write` build, with the number of ULIDs minted.
pub record Progress (C : Type 0) : Type 0 where
  pub records : List (TupleRecord C)
  pub changes : List (TupleChangeRec C)
  pub minted : ℕ

module _ {C : Type 0} where
  delete_error :
      OnMissingDelete → ℕ → TupleKeyWithoutCondition → Result C (List ℕ) → Result C (List ℕ)
  delete_error missing_error i tk rest = err (invalid_write_input operation_delete tk)
  delete_error missing_ignore i tk (ok dups) = ok (i ∷ dups)
  delete_error missing_ignore i tk (err e) = err e

  -- The first loop of `sanitizeTuplesWriteDelete`: the indices of the deletes that do nothing.
  unfoldable pub sanitize_deletes :
      List (TupleRecord C) → OnMissingDelete → ℕ → List TupleKeyWithoutCondition → Result C (List ℕ)
  unfolding delete_error
  sanitize_deletes records opt i [] = ok []
  sanitize_deletes records opt i (tk ∷ deletes) =
      let rest = sanitize_deletes records opt (suc i) deletes in
      elim (find_record records (tuple_key_without_condition_to_tuple_key tk)) [
        | none ↦ delete_error opt i tk rest
        | some r ↦ rest
      ]

  -- `record.ConditionContext.String() == tk.GetCondition().GetContext().String()`, by the printer
  -- of a context that may be nil
  same_condition : (Option C → Text) → TupleRecord C → TupleKey C → Bool
  same_condition context_string r tk =
      text_eq r.condition_name (condition_name tk.condition)
      && text_eq (context_string r.condition_context)
          (context_string (condition_context tk.condition))

  write_error :
      (Option C → Text)
      → OnDuplicateInsert
      → ℕ
      → TupleKey C
      → TupleRecord C
      → Result C (List ℕ)
      → Result C (List ℕ)
  unfolding same_condition
  write_error context_string duplicate_error i tk r rest =
      err (invalid_write_input operation_write (tuple_key_to_tuple_key_without_condition tk))
  write_error context_string duplicate_ignore i tk r (ok dups) =
      if same_condition context_string r tk
      then ok (i ∷ dups)
      else err (tuple_condition_conflict tk)
  write_error context_string duplicate_ignore i tk r (err e) =
      if same_condition context_string r tk then err e else err (tuple_condition_conflict tk)

  -- Its second loop: the indices of the writes that do nothing.
  unfoldable pub sanitize_writes :
      (Option C → Text)
      → List (TupleRecord C)
      → OnDuplicateInsert
      → ℕ
      → List (TupleKey C)
      → Result C (List ℕ)
  unfolding write_error
  sanitize_writes context_string records opt i [] = ok []
  sanitize_writes context_string records opt i (tk ∷ writes) =
      let rest = sanitize_writes context_string records opt (suc i) writes in
      elim (find_record records tk) [
        | none ↦ rest
        | some r ↦ write_error context_string opt i tk r rest
      ]

  -- Whether the loop over `deletes` drops the record.
  unfoldable pub is_deleted : List ℕ → ℕ → List TupleKeyWithoutCondition → TupleRecord C → Bool
  is_deleted duplicate_deletes i [] tr = false
  is_deleted duplicate_deletes i (k ∷ deletes) tr =
      (matches tr k.object k.relation k.user && not (contains duplicate_deletes i))
      || is_deleted duplicate_deletes (suc i) deletes tr

  -- The condition is redacted.
  abbrev pub deletion : C → ℕ → ℕ → TupleRecord C → TupleChangeRec C
  deletion empty_struct now ulid tr =
      let tk = (as_tuple empty_struct tr).key in
      record {
        change = record {
          tuple_key = new_tuple_key tk.object tk.relation tk.user;
          operation = operation_delete;
          timestamp = now;
        };
        ulid = ulid;
      }

  -- The loop `Delete`.
  unfoldable pub delete_loop :
      C → ℕ → (ℕ → ℕ) → (TupleRecord C → Bool) → List (TupleRecord C) → Progress C → Progress C
  delete_loop empty_struct now mint deleted [] p = p
  delete_loop empty_struct now mint deleted (tr ∷ tuples) p =
      delete_loop empty_struct now mint deleted tuples (
        if deleted tr
        then record p {
          changes = p.changes ++ (deletion empty_struct now (mint p.minted) tr ∷ []);
          minted = suc p.minted;
        }
        else record p { records = p.records ++ (tr ∷ []) })

  abbrev pub insertion : Text → ℕ → ℕ → TupleKey C → TupleRecord C
  insertion store now ulid t =
      let (object_type, object_id) = split_object t.object in
      record {
        store = store;
        object_type = object_type;
        object_id = object_id;
        relation = t.relation;
        user = t.user;
        user_object_type = [];
        user_object_id = [];
        user_relation = [];
        condition_name = condition_name t.condition;
        condition_context = condition_context t.condition;
        ulid = ulid;
        inserted_at = now;
      }

  abbrev pub insertion_change : C → ℕ → ℕ → TupleKey C → TupleChangeRec C
  insertion_change empty_struct now ulid t =
      let (object_type, object_id) = split_object t.object in
      record {
        change = record {
          tuple_key =
              new_tuple_key_with_condition empty_struct (build_object object_type object_id)
                t.relation t.user (condition_name t.condition) (condition_context t.condition);
          operation = operation_write;
          timestamp = now;
        };
        ulid = ulid;
      }

  -- The loop `Write`.
  unfoldable pub write_loop : C → Text → ℕ → (ℕ → ℕ) → List (TupleKey C) → Progress C → Progress C
  write_loop empty_struct store now mint [] p = p
  write_loop empty_struct store now mint (t ∷ writes) p =
      write_loop empty_struct store now mint writes (
        if any (λ et. matches et t.object t.relation t.user) p.records then p else record p {
          records = p.records ++ (insertion store now (mint p.minted) t ∷ []);
          changes = p.changes ++ (insertion_change empty_struct now (mint (suc p.minted)) t ∷ []);
          minted = suc (suc p.minted);
        })

  unfoldable pub apply_writes :
      C
      → TupleBackend C
      → Text
      → List TupleKeyWithoutCondition
      → List (TupleKey C)
      → ℕ
      → (ℕ → ℕ)
      → List ℕ
      → TupleBackend C
  unfolding delete_loop write_loop
  apply_writes empty_struct s store deletes writes now mint duplicate_deletes =
      let start : Progress C = record { records = []; changes = s.changes store; minted = 0 } in
      let p =
        delete_loop empty_struct now mint (is_deleted duplicate_deletes 0 deletes) (s.tuples store)
          start in
      let q = write_loop empty_struct store now mint writes p in
      record {
        tuples = update s.tuples store q.records;
        changes = update s.changes store q.changes;
      }

  -- `MemoryBackend.Write`: an error leaves the backend as it was.
  unfoldable pub write :
      (empty_struct : C) (context_string : Option C → Text)
      → TupleBackend C
      → (store : Text) (deletes : List TupleKeyWithoutCondition) (writes : List (TupleKey C))
        (opts : List TupleWriteOption)
      → (now : ℕ) (mint : ℕ → ℕ) → Result C (TupleBackend C)
  write empty_struct context_string s store deletes writes opts now mint =
      let o = new_tuple_write_options opts in
      elim (sanitize_deletes (s.tuples store) o.on_missing_delete 0 deletes) [
        | err e ↦ err e
        | ok duplicate_deletes ↦
            elim (sanitize_writes context_string (s.tuples store) o.on_duplicate_insert 0 writes) [
              | err e ↦ err e
              | ok duplicate_writes ↦
                  ok (apply_writes empty_struct s store deletes writes now mint duplicate_deletes)
            ]
      ]
