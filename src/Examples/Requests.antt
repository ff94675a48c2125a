-- ===== src/Examples/Requests.antt =====
-- A write request of pkg/server/commands.
use kengen.Base.{
  ℕ, ◌+◌, ◌≤◌, Text, text, text_eq, ◌≡◌, ◌↔◌, ◌⊎◌, inr, refl, Bool, true, Option, none, List, [],
  ◌∷◌, ◌++◌, map, length, All,
}
use kengen.Tuple.Key.{TupleKey, TupleKeyWithoutCondition}
use kengen.Tuple.Valid.{is_valid_user}
use kengen.Storage.Record.{Result, ok, TupleWriteOption}
use kengen.Commands.Write.{
  WriteRequest, key_string, validate_no_duplicates_and_correct_size, execute,
}
use kengen.Commands.Checked.{fresh, write_keys, validate_no_duplicates_iff, execute-checked}

abbrev old : TupleKeyWithoutCondition
old = record { object = text "doc:1"; relation = text "viewer"; user = text "user:anne" }

abbrev new : TupleKey ℕ
new = record {
  object = text "doc:2";
  relation = text "viewer";
  user = text "user:bob";
  condition = none;
}

validate_no_duplicates_iff_example :
    (validate_no_duplicates_and_correct_size {V = ℕ} 100 (old ∷ []) (new ∷ []) ≡ none) ↔ (
      (fresh [] (map key_string (old ∷ []) ++ map key_string (write_keys (new ∷ []))) ≡ true)
      × (2 ≤ 100))
validate_no_duplicates_iff_example = validate_no_duplicates_iff 100 (old ∷ []) (new ∷ [])

abbrev request : WriteRequest ℕ
request = record {
  store_id = text "s";
  authorization_model_id = text "m";
  deletes = old ∷ [];
  on_missing = [];
  writes = new ∷ [];
  on_duplicate = text "ignore";
}

-- A datastore that counts the tuples it is handed.
abbrev counting :
    ℕ
    → Text
    → List TupleKeyWithoutCondition
    → List (TupleKey ℕ)
    → List TupleWriteOption
    → Result ℕ ℕ
counting n s deletes writes opts = ok (n + (length deletes + length writes))

abbrev model : Text → Text → Result ℕ ℕ
model s m = ok 1

abbrev supported : ℕ → Bool
supported m = true

abbrev typesystem : ℕ → ℕ ⊎ ℕ
typesystem m = inr m

abbrev valid : ℕ → TupleKey ℕ → Option ℕ
valid typesys tk = none

abbrev size : Option ℕ → ℕ
size o = 0

executed : execute model supported typesystem valid size 10 100 counting 3 request ≡ inr 5
unfolding execute text_eq kengen.Tuple.Valid.is_valid_user_id kengen.Tuple.Valid.is_valid_object
executed = refl

execute-checked_example :
    All (λ tk. is_valid_user tk.user ≡ true) (old ∷ [])
    × (fresh [] (map key_string (old ∷ []) ++ map key_string (write_keys (new ∷ []))) ≡ true)
    × (2 ≤ 100)
execute-checked_example =
    execute-checked model supported typesystem valid size 10 100 counting 3 5 request executed
