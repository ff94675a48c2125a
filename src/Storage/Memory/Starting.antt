-- ===== src/Storage/Memory/Starting.antt =====
-- pkg/storage/memory/memory.go: `ReadStartingWithUser`. `sort.Slice` is a parameter, and so is the set of object ids,
-- of which only `Exists` is called.
use kengen.Base.{
  Text, text_eq, text_lt, ◌≡◌, Bool, true, false, not, ◌&&◌, Option, none, some, List, [], ◌∷◌,
  ◌++◌, any, if◌then◌else◌,
}
use kengen.Tuple.Split.{get_object_relation_as_string}
use kengen.Storage.Record.{TupleRecord}
use kengen.Storage.Memory.Write.{TupleBackend}
use kengen.Storage.Memory.Read.{StaticIterator, condition_allowed}

-- A user of the filter is an object and a relation; an empty relation is none.
pub record ReadStartingWithUserFilter : Type 0 where
  pub object_type : Text
  pub relation : Text
  pub user_filter : List (Text × Text)
  pub object_ids : Option (Text → Bool)
  pub conditions : List Text

-- The string of a user of the filter.
unfoldable pub target_user : Text × Text → Text
target_user u = if not (text_eq u.1 []) then get_object_relation_as_string u.0 u.1 else u.0

-- A filter that is nil lets every object pass.
abbrev pub object_id_allowed : Option (Text → Bool) → Text → Bool
object_id_allowed none x = true
object_id_allowed (some exists_in) x = exists_in x

-- No two users of the filter have the same string.
abbrev pub DistinctUsers : List (Text × Text) → Type 0
DistinctUsers [] = Unit {0}
DistinctUsers (u ∷ us) =
    (any (λ v. text_eq (target_user v) (target_user u)) us ≡ false) × DistinctUsers us

module _ {C : Type 0} where
  -- The inner loop over the users: the record once for each whose string is the user of the record.
  unfoldable pub user_loop :
      TupleRecord C → List (Text × Text) → List (TupleRecord C) → List (TupleRecord C)
  user_loop t [] ms = ms
  user_loop t (u ∷ us) ms =
      user_loop t us (if not (text_eq (target_user u) t.user) then ms else ms ++ (t ∷ []))

  -- The four tests at the head of the outer loop's body
  unfoldable pub skipped : ReadStartingWithUserFilter → TupleRecord C → Bool
  skipped f t =
      if not (text_eq t.object_type f.object_type)
      then true
      else if not (text_eq t.relation f.relation)
      then true
      else if not (object_id_allowed f.object_ids t.object_id)
      then true
      else not (condition_allowed f.conditions t.condition_name)

  unfoldable pub starting_loop :
      ReadStartingWithUserFilter
      → List (TupleRecord C)
      → List (TupleRecord C)
      → List (TupleRecord C)
  unfolding user_loop skipped
  starting_loop f [] ms = ms
  starting_loop f (t ∷ ts) ms =
      starting_loop f ts (if skipped f t then ms else user_loop t f.user_filter ms)

  abbrev pub id_before : TupleRecord C → TupleRecord C → Bool
  id_before t u = text_lt t.object_id u.object_id

  -- `MemoryBackend.ReadStartingWithUser`
  unfoldable pub read_starting_with_user :
      ((TupleRecord C → TupleRecord C → Bool) → List (TupleRecord C) → List (TupleRecord C))
      → TupleBackend C
      → Text
      → ReadStartingWithUserFilter
      → StaticIterator C
  unfolding starting_loop
  read_starting_with_user sort_slice s store f = record {
    records = sort_slice id_before (starting_loop f (s.tuples store) []);
    continuation_token = [];
  }

  abbrev pub reaches : TupleRecord C → Text × Text → Bool
  reaches t u = text_eq (target_user u) t.user

  -- The records that the filter describes.
  abbrev pub starts : ReadStartingWithUserFilter → TupleRecord C → Bool
  starts f t =
      text_eq t.object_type f.object_type
      && text_eq t.relation f.relation
      && object_id_allowed f.object_ids t.object_id
      && condition_allowed f.conditions t.condition_name
      && any (reaches t) f.user_filter
