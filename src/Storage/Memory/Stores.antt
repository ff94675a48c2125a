-- ===== src/Storage/Memory/Stores.antt =====
-- pkg/storage/memory/memory.go: the stores of the in-memory datastore. A time is a number.
use kengen.Base.{
  ℕ, Text, text_eq, text_lt, not, Option, none, some, List, [], ◌∷◌, ◌++◌, map, filter,
  if◌then◌else◌,
}
use kengen.Typesystem.Model.{lookup, put}
use kengen.Storage.Record.{Result, ok, err, not_found, collision}
use kengen.Storage.Memory.Read.{PaginationOptions}
use kengen.Storage.Memory.Pages.{page_size_of, page_at}

-- `openfgav1.Store`
pub record Store : Type 0 where
  pub id : Text
  pub name : Text
  pub created_at : ℕ
  pub updated_at : ℕ

abbrev pub Stores : Type 0
Stores = List (Text × Store)

-- `ListStoresOptions`
pub record ListStoresOptions : Type 0 where
  pub ids : List Text
  pub name : Text
  pub pagination : PaginationOptions

-- `CreateStore` at the time `now`
unfoldable pub create_store : {C : Type 0} → ℕ → Stores → Store → Result C (Stores × Store)
create_store now s new_store = elim (lookup new_store.id s) [
  | some old ↦ err collision
  | none ↦
      let made : Store = record {
        id = new_store.id;
        name = new_store.name;
        created_at = now;
        updated_at = now;
      } in
      ok (put new_store.id made s, made)
]

-- `delete(s.stores, id)`
unfoldable pub delete_store : Stores → Text → Stores
delete_store s id = filter (λ e. not (text_eq e.0 id)) s

unfoldable pub get_store : {C : Type 0} → Stores → Text → Result C Store
get_store s id = elim (lookup id s) [ none ↦ err not_found | some x ↦ ok x ]

-- The loops of `ListStores` that filter.
abbrev pub of_ids : List Text → List Store → List Store
of_ids [] stores = []
of_ids (id ∷ ids) stores = filter (λ x. text_eq x.id id) stores ++ of_ids ids stores

abbrev pub by_ids : List Text → List Store → List Store
by_ids [] stores = stores
by_ids (id ∷ ids) stores = of_ids (id ∷ ids) stores

abbrev pub by_name : Text → List Store → List Store
by_name name stores =
    if not (text_eq name []) then filter (λ x. text_eq x.name name) stores else stores

-- `sort.SliceStable` from the least id to the greatest
abbrev pub insert_oldest : Store → List Store → List Store
insert_oldest x [] = x ∷ []
insert_oldest x (y ∷ ys) =
    let more = insert_oldest x ys in if text_lt y.id x.id then y ∷ more else x ∷ y ∷ ys

abbrev pub oldest_first : List Store → List Store
oldest_first [] = []
oldest_first (x ∷ xs) = insert_oldest x (oldest_first xs)

-- The stores of a listing.
abbrev pub listed_stores : Stores → List Text → Text → List Store
listed_stores s ids name = oldest_first (by_name name (by_ids ids (map (λ e. e.1) s)))

-- `ListStores`: an empty page has no token, as the page at the end has none.
unfoldable pub list_stores :
    {C : Type 0} → Stores → ListStoresOptions → Result C (List Store × Text)
unfolding page_at
list_stores s options =
    page_at (listed_stores s options.ids options.name) (page_size_of options.pagination.page_size)
      options.pagination.from

-- What a store id is bound to, of the states that the two operations make.
pub data StoreOperation : Type 0 where
  create : (now : ℕ) (new_store : Store) → StoreOperation
  delete : Text → StoreOperation

abbrev pub state_of : {C : Type 0} → Stores → Result C (Stores × Store) → Stores
state_of s (ok r) = r.0
state_of s (err e) = s

unfoldable pub apply : {C : Type 0} → C → Stores → StoreOperation → Stores
unfolding create_store delete_store
apply {C} c s (create now x) = state_of {C = C} s (create_store now s x)
apply c s (delete id) = delete_store s id

-- A client that follows the tokens of `ListStores`.
abbrev pub listing_of :
    {C : Type 0} → Stores → List Text → Text → ℕ → Text → Result C (List Store × Text)
listing_of s ids name size token =
    list_stores s
      (record { ids = ids; name = name; pagination = record { page_size = size; from = token } })

-- The stores as a function of their ids, and what an operation makes of it.
abbrev pub Bindings : Type 0
Bindings = Text → Option Store

abbrev pub or_bind : Option Store → Store → Option Store
or_bind none x = some x
or_bind (some old) x = some old

abbrev pub made_at : ℕ → Store → Store
made_at now x = record { id = x.id; name = x.name; created_at = now; updated_at = now }

abbrev pub bind : Bindings → StoreOperation → Bindings
bind m (create now x) = λ id. if text_eq x.id id then or_bind (m x.id) (made_at now x) else m id
bind m (delete id') = λ id. if text_eq id id' then none else m id

abbrev pub run_stores : {C : Type 0} → C → Stores → List StoreOperation → Stores
run_stores c s [] = s
run_stores c s (op ∷ ops) = run_stores c (apply c s op) ops

abbrev pub run_bindings : Bindings → List StoreOperation → Bindings
run_bindings m [] = m
run_bindings m (op ∷ ops) = run_bindings (bind m op) ops

abbrev pub as_result : {C : Type 0} → Option Store → Result C Store
as_result none = err not_found
as_result (some x) = ok x
