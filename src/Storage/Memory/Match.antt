-- ===== src/Storage/Memory/Match.antt =====
-- pkg/storage/memory/memory.go: `match` and `find`.
use kengen.Base.{
  Text, text_eq, has_prefix, Bool, true, false, not, ◌&&◌, Option, List, [], ◌∷◌, ◌++◌, find,
  if◌then◌else◌,
}
use kengen.Tuple.Key.{TupleKey}
use kengen.Tuple.Split.{split_object, to_user_parts}
use kengen.Storage.Record.{TupleRecord}

module _ {C : Type 0} where
  object_matches : TupleRecord C → Text → Bool
  unfolding split_object
  object_matches t object =
      let (td, objectid) = split_object object in
      if text_eq objectid []
      then text_eq td t.object_type
      else text_eq td t.object_type && text_eq objectid t.object_id

  user_matches : TupleRecord C → Text → Bool
  unfolding to_user_parts
  user_matches t user =
      let (user_type, user_id, user_relation) = to_user_parts user in
      if not (text_eq user_id []) && not (text_eq t.user user)
      then false
      else if text_eq user_id [] && not (has_prefix t.user (user_type ++ (b':' ∷ [])))
      then false
      else true

  -- `match`, on the fields of the target that it reads
  unfoldable pub matches : TupleRecord C → Text → Text → Text → Bool
  unfolding object_matches user_matches
  matches t object relation user =
      if not (text_eq object []) && not (object_matches t object)
      then false
      else if not (text_eq relation []) && not (text_eq t.relation relation)
      then false
      else if not (text_eq user [])
      then user_matches t user
      else true

  -- `find`
  abbrev pub find_record : List (TupleRecord C) → TupleKey C → Option (TupleRecord C)
  find_record records tk = find (λ t. matches t tk.object tk.relation tk.user) records
