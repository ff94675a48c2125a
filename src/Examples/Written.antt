-- ===== src/Examples/Written.antt =====
-- A write request of pkg/server/commands for the documents of Models.
use kengen.Base.{
  ℕ, ◌+◌, Text, text, text_eq, ◌≡◌, refl, true, Option, List, [], ◌∷◌, length, All, inr, arith,
}
use kengen.Tuple.Key.{TupleKey, TupleKeyWithoutCondition}
use kengen.Storage.Record.{TupleWriteOption, Result, ok}
use kengen.Typesystem.Model.{AuthorizationModel, new_without_graphs}
use kengen.Validation.Struct.{Fields}
use kengen.Validation.Tuples.{validate_tuple_for_write}
use kengen.Validation.Accepted.{Writable}
use kengen.Commands.Write.{WriteRequest, execute}
use kengen.Commands.Validated.{model_supported, run_write, run_write-Writable}
use kengen.Examples.Models.{docs, anyone, graphs, no_parameters, converts}

abbrev everyone_views : WriteRequest Fields
everyone_views = record {
  store_id = text "s";
  authorization_model_id = text "m";
  deletes = [];
  on_missing = [];
  writes = anyone ∷ [];
  on_duplicate = [];
}

abbrev only_docs : Text → Text → Result Fields (AuthorizationModel ℕ)
only_docs s m = ok docs

abbrev no_size : Option Fields → ℕ
no_size c = 0

-- A datastore that counts the tuples it is handed.
abbrev count_writes :
    ℕ
    → Text
    → List TupleKeyWithoutCondition
    → List (TupleKey Fields)
    → List TupleWriteOption
    → Result Fields ℕ
count_writes n s deletes writes opts = ok (n + length writes)

written :
    run_write no_parameters converts graphs only_docs no_size 10 100 count_writes 3 everyone_views
    ≡ inr 4
unfolding execute validate_tuple_for_write new_without_graphs text_eq
    kengen.Tuple.Valid.is_valid_user_id kengen.Tuple.Valid.is_valid_object
written = refl

run_write-Writable_example :
    (m : AuthorizationModel ℕ) × (only_docs (text "s") (text "m") ≡ ok m)
    × (model_supported m ≡ true)
    × All (Writable no_parameters converts (new_without_graphs m)) (anyone ∷ [])
run_write-Writable_example =
    run_write-Writable no_parameters converts graphs only_docs no_size 10 100 count_writes 3 4
      everyone_views (omega arith) written
