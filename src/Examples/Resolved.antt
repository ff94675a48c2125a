-- ===== src/Examples/Resolved.antt =====
-- Checks of internal/graph over the documents of Models.
use mathlib.Core.List.Memᴰ
use kengen.Base.{
  ℕ, Text, text, text_eq, ◌≡◌, refl, true, false, none, some, [], ◌∷◌, length, ◌≤◌, ◌≢◌, arith,
}
use kengen.Storage.Record.{TupleRecord, as_tuple}
use kengen.Storage.Memory.Write.{TupleBackend}
use kengen.Storage.Iterators.Conditions.{tested}
use kengen.Typesystem.Model.{new_without_graphs}
use kengen.Validation.Struct.{Fields}
use kengen.Check.Response.{responded}
use kengen.Check.Reduce.{plain_response}
use kengen.Check.Exclude.{base_arrived, base_closed, sub_arrived, sub_closed}
use kengen.Check.Request.{CheckRequest, Checker, visited_key}
use kengen.Check.Resolve.{resolve_check}
use kengen.Typesystem.Lookup.{directly_related_usersets}
use kengen.Storage.Memory.Match.{matches}
use kengen.Tuple.Parse.{tuple_key_to_string}
use kengen.Tuple.Key.{new_tuple_key_with_condition}
use kengen.Validation.Tuples.{filter_invalid_tuples}
use kengen.Check.Outcomes.{Fair}
use kengen.Check.Derivation.{Related}
use kengen.Check.Grounds.{Refused}
use kengen.Check.Sound.{resolve_check-Holds}
use kengen.Check.Ends.{resolve_check-ends}
use kengen.Typesystem.Cycles.Fuel.{type_relations}
use kengen.Examples.Starting.{perm_refl}
use kengen.Examples.Models.{doc_system, no_parameters, converts}

abbrev edits : TupleRecord Fields
edits = record {
  store = text "s";
  object_type = text "doc";
  object_id = text "1";
  relation = text "editor";
  user = text "user:anne";
  user_object_type = [];
  user_object_id = [];
  user_relation = [];
  condition_name = [];
  condition_context = none;
  ulid = 1;
  inserted_at = 5;
}

abbrev edited : TupleBackend Fields
edited = record { tuples = λ s. edits ∷ []; changes = λ s. [] }

abbrev checker : Checker ℕ ℕ ℕ
checker = record {
  typesys = doc_system;
  parameters = no_parameters;
  convert = converts;
  datastore = edited;
  graph_path = λ from to. some true;
  condition_met = λ tk. tested true;
  max_resolution_depth = 25;
  arrival = λ req u os. os;
  received = λ req b s. base_arrived b ∷ base_closed ∷ sub_arrived s ∷ sub_closed ∷ [];
}

abbrev asked : Text → CheckRequest
asked user = record {
  store_id = text "s";
  object = text "doc:1";
  relation = text "viewer";
  user = user;
  depth = 0;
  visited_paths = [];
}

-- An editor is a viewer.
anne_views :
    resolve_check checker 5 (asked (text "user:anne")) ≡ some (responded (plain_response true))
unfolding resolve_check text_eq new_without_graphs directly_related_usersets matches visited_key
    tuple_key_to_string filter_invalid_tuples as_tuple new_tuple_key_with_condition
anne_views = refl

bob_does_not :
    resolve_check checker 5 (asked (text "user:bob")) ≡ some (responded (plain_response false))
unfolding resolve_check text_eq new_without_graphs directly_related_usersets matches visited_key
    tuple_key_to_string filter_invalid_tuples as_tuple new_tuple_key_with_condition
bob_does_not = refl

abbrev arrives : Fair checker
arrives = (λ req u os. perm_refl os, λ req b s. Memᴰ.head refl)

resolve_check-Holds_example :
    Related checker
      (text "s")
      (Refused checker (text "s"))
      (text "user:anne")
      (text "doc:1")
      (text "viewer")
resolve_check-Holds_example =
    resolve_check-Holds checker 5 (asked (text "user:anne")) (plain_response true) arrives
      anne_views refl

few : (t : Text) → length (type_relations doc_system t) ≤ 2
unfolding new_without_graphs
few t = ground arith

resolve_check-ends_example : resolve_check checker 80 (asked (text "user:anne")) ≢ none
resolve_check-ends_example =
    resolve_check-ends checker 2 few 80 (asked (text "user:anne")) arrives (omega arith)
      (omega arith)
