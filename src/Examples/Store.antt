-- ===== src/Examples/Store.antt =====
-- Writes to a store of pkg/storage/memory.
use kengen.Base.{
  ℕ, Text, text, text_eq, ◌≡◌, ◌↔◌, refl, true, false, not, ◌&&◌, ◌||◌, Option, none, List, [], ◌∷◌,
  any, all, filter,
}
use kengen.Tuple.Key.{TupleKey, TupleKeyWithoutCondition}
use kengen.Tuple.Valid.{is_valid_user}
use kengen.Storage.Record.{
  TupleRecord, Result, ok, err, StorageError, TupleWriteOption, with_on_missing_delete,
  missing_ignore,
}
use kengen.Storage.Memory.Write.{TupleBackend, write}
use kengen.Storage.Memory.Keys.{ValidKey, same_key}
use kengen.Storage.Memory.Changelog.{bare, replay}
use kengen.Storage.Memory.Distinct.{has_key}
use kengen.Storage.Memory.Consistent.{Consistent}
use kengen.Storage.Memory.Effect.{write-Consistent, has_key-write}
use kengen.Storage.Memory.Success.{write_succeeds_iff}
use kengen.Storage.Memory.Prefix.{write_delete_type, of_type}

abbrev pub viewer : TupleKey ℕ
viewer = record {
  object = text "doc:1";
  relation = text "viewer";
  user = text "user:anne";
  condition = none;
}

abbrev pub editor : TupleKey ℕ
editor = record {
  object = text "doc:2";
  relation = text "viewer";
  user = text "group:eng#member";
  condition = none;
}

abbrev pub empty_backend : TupleBackend ℕ
empty_backend = record { tuples = λ s. []; changes = λ s. [] }

abbrev context_text : Option ℕ → Text
context_text o = []

abbrev or_empty : Result ℕ (TupleBackend ℕ) → TupleBackend ℕ
or_empty (ok s) = s
or_empty (err e) = empty_backend

empty_backend-Consistent :
    Consistent 0 (empty_backend.tuples (text "s")) (empty_backend.changes (text "s"))
unfolding replay
empty_backend-Consistent = record { formed = tt; distinct = tt; replayed = refl }

viewer-ValidKey : ValidKey (bare viewer)
unfolding kengen.Tuple.Valid.is_valid_object text_eq is_valid_user
    kengen.Tuple.Valid.is_valid_user_id kengen.Tuple.Valid.is_valid_userset
viewer-ValidKey = record { object_ok = refl; relation_some = refl; user_ok = refl }

editor-ValidKey : ValidKey (bare editor)
unfolding kengen.Tuple.Valid.is_valid_object text_eq is_valid_user
    kengen.Tuple.Valid.is_valid_user_id kengen.Tuple.Valid.is_valid_userset
editor-ValidKey = record { object_ok = refl; relation_some = refl; user_ok = refl }

-- The backend behind a write of the two tuples.
abbrev pub two_tuples : TupleBackend ℕ
unfolding write
two_tuples =
    or_empty (write 0 context_text empty_backend (text "s") [] (viewer ∷ editor ∷ []) [] 5 (λ k. k))

two_written :
    write 0 context_text empty_backend (text "s") [] (viewer ∷ editor ∷ []) [] 5 (λ k. k)
    ≡ ok two_tuples
unfolding write kengen.Storage.Memory.Write.sanitize_deletes
    kengen.Storage.Memory.Write.sanitize_writes
two_written = refl

write-Consistent_example :
    Consistent 0 (two_tuples.tuples (text "s")) (two_tuples.changes (text "s"))
write-Consistent_example =
    write-Consistent 0 context_text empty_backend (text "s") [] (viewer ∷ editor ∷ []) [] 5 (λ k. k)
      two_tuples (viewer-ValidKey, (editor-ValidKey, tt)) empty_backend-Consistent two_written

two_tuples-Consistent : Consistent 0 (two_tuples.tuples (text "s")) (two_tuples.changes (text "s"))
two_tuples-Consistent =
    write-Consistent 0 context_text empty_backend (text "s") [] (viewer ∷ editor ∷ []) [] 5 (λ k. k)
      two_tuples (viewer-ValidKey, (editor-ValidKey, tt)) empty_backend-Consistent two_written

-- The first tuple deleted again, with a delete of a missing one that is ignored.
abbrev missing : TupleKeyWithoutCondition
missing = record { object = text "doc:9"; relation = text "viewer"; user = text "user:bob" }

abbrev two_deletes : List TupleKeyWithoutCondition
two_deletes = bare viewer ∷ missing ∷ []

missing-ValidKey : ValidKey missing
unfolding kengen.Tuple.Valid.is_valid_object text_eq is_valid_user
    kengen.Tuple.Valid.is_valid_user_id kengen.Tuple.Valid.is_valid_userset
missing-ValidKey = record { object_ok = refl; relation_some = refl; user_ok = refl }

abbrev ignoring : List TupleWriteOption
ignoring = with_on_missing_delete missing_ignore ∷ []

abbrev one_tuple : TupleBackend ℕ
unfolding write
one_tuple = or_empty (write 0 context_text two_tuples (text "s") two_deletes [] ignoring 6 (λ k. k))

viewer_deleted :
    write 0 context_text two_tuples (text "s") two_deletes [] ignoring 6 (λ k. k) ≡ ok one_tuple
unfolding write kengen.Storage.Memory.Write.sanitize_deletes
    kengen.Storage.Memory.Write.sanitize_writes kengen.Storage.Memory.Write.apply_writes text_eq
    kengen.Storage.Memory.Match.matches kengen.Storage.Record.new_tuple_write_options
viewer_deleted = refl

has_key-write_example : has_key (one_tuple.tuples (text "s")) (bare viewer) ≡ (
    (has_key (two_tuples.tuples (text "s")) (bare viewer)
      && not (any (λ d. same_key (bare viewer) d) two_deletes))
    || false)
has_key-write_example =
    has_key-write 0 context_text two_tuples (text "s") two_deletes [] ignoring 6 (λ k. k) one_tuple
      (bare viewer) (viewer-ValidKey, (missing-ValidKey, tt)) tt two_tuples-Consistent
      viewer_deleted

write_succeeds_iff_example :
    ((s' : TupleBackend ℕ) × (write 0 context_text two_tuples
          (text "s")
          two_deletes
          []
          []
          6
          (λ k. k)
        ≡ ok s'))
    ↔ ((all (has_key (two_tuples.tuples (text "s"))) two_deletes ≡ true) × (true ≡ true))
write_succeeds_iff_example =
    write_succeeds_iff 0 context_text two_tuples (text "s") two_deletes [] 6 (λ k. k)
      (viewer-ValidKey, (missing-ValidKey, tt)) tt two_tuples-Consistent

-- A delete of `doc:` with no id.
abbrev prefix_delete : List TupleKeyWithoutCondition
prefix_delete =
    record { object = text "doc:"; relation = text "viewer"; user = text "user:anne" } ∷ []

abbrev without_docs : TupleBackend ℕ
unfolding write
without_docs = or_empty (write 0 context_text two_tuples (text "s") prefix_delete [] [] 7 (λ k. k))

docs_deleted :
    write 0 context_text two_tuples (text "s") prefix_delete [] [] 7 (λ k. k) ≡ ok without_docs
unfolding write kengen.Storage.Memory.Write.sanitize_deletes
    kengen.Storage.Memory.Write.sanitize_writes kengen.Storage.Memory.Write.apply_writes text_eq
    kengen.Storage.Memory.Match.matches kengen.Storage.Record.new_tuple_write_options
docs_deleted = refl

write_delete_type_example :
    without_docs.tuples (text "s")
    ≡ filter
        (λ r. not (of_type (text "doc") (text "viewer") (text "user:anne") r))
        (two_tuples.tuples (text "s"))
unfolding text_eq
write_delete_type_example =
    write_delete_type 0 context_text two_tuples without_docs (text "s") (text "doc") (text "viewer")
      (text "user:anne") [] 7 (λ k. k) refl refl viewer-ValidKey.user_ok docs_deleted
