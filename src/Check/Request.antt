-- ===== src/Check/Request.antt =====
-- internal/graph/resolve_check_request.go, and the state of `LocalChecker` of internal/graph/check.go with what its
-- context holds: the type system and the datastore, which is the in-memory one.
use kengen.Base.{
  ℕ, Text, text_eq, Bool, true, false, Option, none, some, List, [], ◌∷◌, any, if◌then◌else◌,
}
use kengen.Tuple.Key.{TupleKey}
use kengen.Tuple.Split.{to_user_parts, typed_public_wildcard, to_object_relation_string}
use kengen.Tuple.Parse.{tuple_key_to_string}
use kengen.Storage.Record.{StorageError}
use kengen.Storage.Memory.Write.{TupleBackend}
use kengen.Storage.Iterators.Conditions.{Tested}
use kengen.Typesystem.Model.{Userset, TypeSystem}
use kengen.Validation.Struct.{Value, Fields}
use kengen.Check.Response.{CheckOutcome, failed, handler_error}
use kengen.Check.Exclude.{Received}

-- `ResolveCheckRequest`: the tuple key, `RequestMetadata.Depth`, and the keys of `VisitedPaths`. A clone has maps of its
-- own, so the records are passed by value.
pub record CheckRequest : Type 0 where
  pub store_id : Text
  pub object : Text
  pub relation : Text
  pub user : Text
  pub depth : ℕ
  pub visited_paths : List Text

-- The errors of a check. `V` is the type of the errors of a condition's evaluation.
pub data CheckFault (V : Type 0) : Type 0 where
  resolution_depth_exceeded unknown_set_operator : CheckFault V
  undefined_relation : (relation : Text) (object_type : Text) → CheckFault V
  path_error : CheckFault V
  datastore_error : StorageError Fields → CheckFault V
  condition_error : V → CheckFault V

abbrev pub Outcome : Type 0 → Type 0
Outcome V = CheckOutcome (CheckFault V)

abbrev pub fault_outcome : {V : Type 0} → CheckFault V → Outcome V
fault_outcome e = failed (handler_error e)

-- `LocalChecker` and its context. `graph_path` is `PathExists` of the authorization model graph, which another package
-- builds: `none` is its error. `condition_met` is `EvaluateTupleCondition` with the context of the request. `arrival` is
-- the order in which the outcomes of a request's handlers arrive, and `received` what an exclusion receives.
pub record Checker (D P V : Type 0) : Type 0 where
  pub typesys : TypeSystem D
  pub parameters : D → List (Text × P)
  pub convert : P → Value → Bool
  pub datastore : TupleBackend Fields
  pub graph_path : Text → Text → Option Bool
  pub condition_met : TupleKey Fields → Tested V
  pub max_resolution_depth : ℕ
  pub arrival : CheckRequest → Userset → List (Outcome V) → List (Outcome V)
  pub received : CheckRequest → Outcome V → Outcome V → List (Received (CheckFault V))

-- The key of a request in `VisitedPaths`
unfoldable pub visited_key : CheckRequest → Text
visited_key req = tuple_key_to_string req.object req.relation req.user

-- `hasCycle`, without its write
unfoldable pub has_cycle : CheckRequest → Bool
has_cycle req = any (text_eq (visited_key req)) req.visited_paths

-- The request behind `hasCycle`, which notes its key.
unfoldable pub visit : CheckRequest → CheckRequest
visit req = record req { visited_paths = visited_key req ∷ req.visited_paths }

-- `PathExists` of the type system; `none` is its error.
unfoldable pub path_exists : {D P V : Type 0} → Checker D P V → Text → Text → Text → Option Bool
unfolding to_user_parts
path_exists c user relation object_type =
    let (user_type, id, user_relation) = to_user_parts user in
    let is_userset = if text_eq user_relation [] then false else true in
    let from =
      if is_userset then to_object_relation_string user_type user_relation else user_type in
    let to = to_object_relation_string object_type relation in
    elim (c.graph_path from to) [
      | none ↦ none
      | some true ↦ some true
      | some false ↦
          if is_userset
          then some false
          else elim (c.graph_path (typed_public_wildcard user_type) to) [
            | none ↦ some false
            | some b ↦ some b
          ]
    ]
