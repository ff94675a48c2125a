-- ===== src/Storage/Memory/Listing.antt =====
-- pkg/storage/memory/memory.go: what `ListStores` lists, described without its loops and its sort.
use mathlib.Core.List.{Permᴰ}
use mathlib.Core.List.Permᴰ
use kengen.Base.Decimal.{int_limit}
use kengen.Storage.Memory.Pages.{page_size_of, follow, follow_all}
use kengen.Base.{
  ℕ, ◌<◌, length, some, Text, text_eq, text_eq_iff, text_lt, text_lt_asym, ◌≡◌, refl, ◌↔◌, ◌⊎◌,
  true, false, List, [], ◌∷◌, ◌++◌, map, arith, Selected, filter-Selected, Selected_all, Bool-cases,
  inl, inr,
}
use kengen.Storage.Memory.Stores.{
  Store, Stores, of_ids, by_ids, by_name, insert_oldest, oldest_first, listed_stores, list_stores,
  listing_of,
}

-- The stores of the ids, those of an id once for each time that it is given.
pub data OfIds (stores : List Store) : List Text → List Store → Type 0 where
  no_ids : OfIds stores [] []
  one_id :
      (id : Text) {ids : List Text} {xs ys : List Store}
      → Selected (λ x. x.id ≡ id) stores xs
      → OfIds stores ids ys
      → OfIds stores (id ∷ ids) (xs ++ ys)

-- Where no id is given, every store.
abbrev pub Asked : List Store → List Text → List Store → Type 0
Asked stores [] xs = stores ≡ xs
Asked stores (id ∷ ids) xs = OfIds stores (id ∷ ids) xs

abbrev pub HasName : Text → Store → Type 0
HasName name x = (name ≡ []) ⊎ (x.name ≡ name)

-- No id is less than the one before.
abbrev pub Ascending : List Store → Type 0
Ascending [] = Unit {0}
Ascending (x ∷ []) = Unit {0}
Ascending (x ∷ y ∷ xs) = (text_lt y.id x.id ≡ false) × Ascending (y ∷ xs)

-- The stores of the ids that have the name, in the order of their ids.
pub record Listing (s : Stores) (ids : List Text) (name : Text) (xs : List Store) : Type 0 where
  pub asked : List Store
  pub named : List Store
  pub asked_Asked : Asked (map (λ e. e.1) s) ids asked
  pub named_Selected : Selected (HasName name) asked named
  pub rearranged : Permᴰ named xs
  pub ascending : Ascending xs

of_ids-OfIds : (ids : List Text) (stores : List Store) → OfIds stores ids (of_ids ids stores)
of_ids-OfIds [] stores = no_ids
of_ids-OfIds (id ∷ ids) stores =
    one_id id
      (filter-Selected (λ x. x.id ≡ id) (λ x. text_eq x.id id) (λ x. text_eq_iff x.id id) stores)
      (of_ids-OfIds ids stores)

by_ids-Asked : (ids : List Text) (stores : List Store) → Asked stores ids (by_ids ids stores)
by_ids-Asked [] stores = refl
by_ids-Asked (id ∷ ids) stores = of_ids-OfIds (id ∷ ids) stores

by_name-Selected :
    (name : Text) (stores : List Store) → Selected (HasName name) stores (by_name name stores)
by_name-Selected name stores = elim (Bool-cases (text_eq name [])) [
  | inl e ↦ rw e (Selected_all (HasName name) (λ x. inl ((text_eq_iff name []).0 e)) stores)
  | inr e ↦ rw e (filter-Selected (HasName name) (λ x. text_eq x.name name) (λ x. iff e x) stores)
]
  where
    iff : text_eq name [] ≡ false → (x : Store) → (text_eq x.name name ≡ true) ↔ HasName name x
    iff e x = ground (arith, e, text_eq_iff x.name name, text_eq_iff name [])

insert_oldest-Perm : (x : Store) (xs : List Store) → Permᴰ (x ∷ xs) (insert_oldest x xs)
insert_oldest-Perm x [] = Permᴰ.refl (x ∷ [])
insert_oldest-Perm x (y ∷ ys) = elim (Bool-cases (text_lt y.id x.id)) [
  | inl e ↦ rw e (Permᴰ.trans (Permᴰ.swap refl refl) (Permᴰ.cons refl (insert_oldest-Perm x ys)))
  | inr e ↦ rw e (Permᴰ.refl (x ∷ y ∷ ys))
]

oldest_first-Perm : (xs : List Store) → Permᴰ xs (oldest_first xs)
oldest_first-Perm [] = Permᴰ.nil
oldest_first-Perm (x ∷ xs) =
    Permᴰ.trans (Permᴰ.cons refl (oldest_first-Perm xs)) (insert_oldest-Perm x (oldest_first xs))

insert_oldest-Ascending :
    (x : Store) (xs : List Store) → Ascending xs → Ascending (insert_oldest x xs)
insert_oldest-Ascending x [] h = tt
insert_oldest-Ascending x (y ∷ []) h = elim (Bool-cases (text_lt y.id x.id)) [
  | inl e ↦ rw e (text_lt_asym y.id x.id e, tt)
  | inr e ↦ rw e (e, tt)
]
insert_oldest-Ascending x (y ∷ z ∷ zs) h =
    let rest = insert_oldest-Ascending x (z ∷ zs) h.1 in
    elim (Bool-cases (text_lt y.id x.id)) [
      | inr e ↦ rw e (e, h)
      | inl e ↦ elim (Bool-cases (text_lt z.id x.id)) [
        | inl f ↦ rw (e, f) (h.0, rw f at rest)
        | inr f ↦ rw (e, f) (text_lt_asym y.id x.id e, rw f at rest)
      ]
    ]

oldest_first-Ascending : (xs : List Store) → Ascending (oldest_first xs)
oldest_first-Ascending [] = tt
oldest_first-Ascending (x ∷ xs) =
    insert_oldest-Ascending x (oldest_first xs) (oldest_first-Ascending xs)

pub listed_stores-Listing :
    (s : Stores) (ids : List Text) (name : Text) → Listing s ids name (listed_stores s ids name)
listed_stores-Listing s ids name =
    let stores = map (λ e. e.1) s in
    record {
      asked = by_ids ids stores;
      named = by_name name (by_ids ids stores);
      asked_Asked = by_ids-Asked ids stores;
      named_Selected = by_name-Selected name (by_ids ids stores);
      rearranged = oldest_first-Perm (by_name name (by_ids ids stores));
      ascending = oldest_first-Ascending (by_name name (by_ids ids stores));
    }

page_size_some : (n : ℕ) → 0 < page_size_of n
page_size_some n = ground arith

-- Following the continuation tokens of `ListStores` from the start, with pages of any size, gives the stores of the ids
-- that are asked for, those of an id once for each time that it is given, or every store if no id is given; of these the
-- ones of the name, if one is given; in the order of their ids, none less than the one before. It takes a round more at
-- most than there are such stores, which are fewer than 2^63.
pub list_stores-follow :
    (C : Type 0) (s : Stores) (ids : List Text) (name : Text) (size fuel : ℕ)
    → length (listed_stores s ids name) < int_limit
    → length (listed_stores s ids name) < fuel
    → (xs : List Store) × (follow (listing_of {C = C} s ids name size) fuel [] ≡ some xs)
      × Listing s ids name xs
unfolding list_stores
list_stores-follow C s ids name size fuel small enough = (
  listed_stores s ids name,
  follow_all C (listed_stores s ids name) (page_size_of size) fuel (page_size_some size) small
      enough,
  listed_stores-Listing s ids name,
)
