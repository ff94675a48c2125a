-- ===== src/Examples/Catalog.antt =====
-- The models and the stores of the in-memory datastore.
use kengen.Base.{
  ℕ, ◌<◌, Text, text, text_eq, ◌≡◌, refl, Option, none, some, List, [], ◌∷◌, length, arith,
}
use kengen.Base.Decimal.{int_limit}
use kengen.Typesystem.Model.{AuthorizationModel}
use kengen.Storage.Memory.Pages.{follow}
use kengen.Storage.Memory.Models.{
  write_all, no_models, last_written, as_found, find_latest_authorization_model,
  find_latest-write_all,
}
use kengen.Storage.Memory.Listing.{Listing, list_stores-follow}
use kengen.Storage.Memory.Stores.{
  Store, Stores, StoreOperation, create, delete, listed_stores, listing_of,
}

abbrev first_model : AuthorizationModel ℕ
first_model = record {
  id = text "m1";
  schema_version = text "1.1";
  type_definitions = [];
  conditions = [];
}

abbrev second_model : AuthorizationModel ℕ
second_model = record {
  id = text "m0";
  schema_version = text "1.1";
  type_definitions = [];
  conditions = [];
}

abbrev model_history : List (Text × AuthorizationModel ℕ)
model_history = (text "s", first_model) ∷ (text "t", first_model) ∷ (text "s", second_model) ∷ []

find_latest-write_all_example :
    find_latest_authorization_model {C = ℕ} (write_all no_models model_history) (text "s")
    ≡ as_found (last_written (text "s") none model_history)
find_latest-write_all_example = find_latest-write_all model_history (text "s")

latest_is_second : last_written (text "s") none model_history ≡ some second_model
unfolding text_eq
latest_is_second = refl

abbrev acme : Store
acme = record { id = text "b"; name = text "acme"; created_at = 1; updated_at = 1 }

abbrev other : Store
other = record { id = text "a"; name = text "other"; created_at = 2; updated_at = 2 }

abbrev two_stores : Stores
two_stores = (text "b", acme) ∷ (text "a", other) ∷ []

few_stores : length (listed_stores two_stores [] []) < int_limit
unfolding kengen.Base.text_lt text_eq
few_stores = omega arith

three_rounds : length (listed_stores two_stores [] []) < 3
unfolding kengen.Base.text_lt text_eq
three_rounds = omega arith

list_stores-follow_example :
    (xs : List Store) × (follow (listing_of {C = ℕ} two_stores [] [] 1) 3 [] ≡ some xs)
    × Listing two_stores [] [] xs
list_stores-follow_example = list_stores-follow ℕ two_stores [] [] 1 3 few_stores three_rounds

abbrev store_history : List StoreOperation
store_history = create 7 acme ∷ create 8 acme ∷ create 9 other ∷ delete (text "a") ∷ []
