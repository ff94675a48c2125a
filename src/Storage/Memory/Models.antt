-- ===== src/Storage/Memory/Models.antt =====
-- pkg/storage/memory/memory.go: the authorization models and the assertions of the in-memory datastore. A Go map is a
-- list of keys and values; a lock is left out, a call runs alone.
use kengen.Base.{
  Text, text_eq, text_eq_refl, text_lt, ◌≡◌, refl, ap, ◌∙◌, Bool, true, false, Option, none, some,
  List, [], ◌∷◌, ◌++◌, map, foldl, find, if◌then◌else◌, Bool-cases, Option-cases, inl, inr,
}
use kengen.Typesystem.Model.{AuthorizationModel, lookup, put}
use kengen.Typesystem.Entrypoints.Visits.{lookup-put}
use kengen.Storage.Record.{Result, ok, err, not_found}
use kengen.Storage.Memory.Read.{PaginationOptions}
use kengen.Storage.Memory.Pages.{page_size_of, page_at}

pub record AuthorizationModelEntry (D : Type 0) : Type 0 where
  pub model : AuthorizationModel D
  pub latest : Bool

-- The models of a store by id.
abbrev pub Entries : Type 0 → Type 0
Entries D = List (Text × AuthorizationModelEntry D)

pub record ModelBackend (D : Type 0) : Type 0 where
  pub authorization_models : List (Text × Entries D)

-- `len(s) == 0`
abbrev pub is_empty_list : {A : Type 0} → List A → Bool
is_empty_list [] = true
is_empty_list (x ∷ xs) = false

-- `sort.Slice` from the greatest id to the least
abbrev pub insert_newest :
    {D : Type 0} → AuthorizationModel D → List (AuthorizationModel D) → List (AuthorizationModel D)
insert_newest m [] = m ∷ []
insert_newest m (n ∷ ns) =
    let more = insert_newest m ns in if text_lt m.id n.id then n ∷ more else m ∷ n ∷ ns

abbrev pub newest_first : {D : Type 0} → List (AuthorizationModel D) → List (AuthorizationModel D)
newest_first [] = []
newest_first (m ∷ ms) = insert_newest m (newest_first ms)

abbrev pub or_empty : {A : Type 0} → Option (List A) → List A
or_empty none = []
or_empty (some xs) = xs

-- A key of the map `fmt.Sprintf("%s|%s", store, modelID)`
abbrev pub assertions_id : Text → Text → Text
assertions_id store model_id = store ++ (b'|' ∷ model_id)

module _ {D : Type 0} where
  abbrev pub latest_of : Option (Text × AuthorizationModelEntry D) → Option (AuthorizationModel D)
  latest_of none = none
  latest_of (some e) = some (e.1.model)

  abbrev pub model_of : Option (AuthorizationModelEntry D) → Option (AuthorizationModel D)
  model_of none = none
  model_of (some e) = some e.model

  unfoldable pub find_authorization_model_by_id : Text → Entries D → Option (AuthorizationModel D)
  find_authorization_model_by_id id configurations =
      if text_eq id []
      then latest_of (find (λ e. e.1.latest) configurations)
      else model_of (lookup id configurations)

  unfoldable pub read_authorization_model :
      {C : Type 0} → ModelBackend D → Text → Text → Result C (AuthorizationModel D)
  unfolding find_authorization_model_by_id
  read_authorization_model s store id = elim (lookup store s.authorization_models) [
    | none ↦ err not_found
    | some tm ↦ elim (find_authorization_model_by_id id tm) [
      | none ↦ err not_found
      | some m ↦ if is_empty_list m.type_definitions then err not_found else ok m
    ]
  ]

  -- The models of a store in the order of the listing.
  abbrev pub listed_models : ModelBackend D → Text → List (AuthorizationModel D)
  listed_models s store =
      newest_first (map (λ e. e.1.model) (or_empty (lookup store s.authorization_models)))

  unfoldable pub read_authorization_models :
      {C : Type 0}
      → ModelBackend D
      → Text
      → PaginationOptions
      → Result C (List (AuthorizationModel D) × Text)
  unfolding page_at
  read_authorization_models s store options =
      page_at (listed_models s store) (page_size_of options.page_size) options.from

  unfoldable pub find_latest_authorization_model :
      {C : Type 0} → ModelBackend D → Text → Result C (AuthorizationModel D)
  unfolding find_authorization_model_by_id
  find_latest_authorization_model s store = elim (lookup store s.authorization_models) [
    | none ↦ err not_found
    | some tm ↦ elim (find_authorization_model_by_id [] tm) [ none ↦ err not_found | some m ↦ ok m ]
  ]

  abbrev pub not_latest : Entries D → Entries D
  not_latest = map (λ e. (e.0, record e.1 { latest = false }))

  unfoldable pub write_authorization_model :
      ModelBackend D → Text → AuthorizationModel D → ModelBackend D
  write_authorization_model s store m = record s {
    authorization_models =
        put store
          (put m.id (record { model = m; latest = true })
            (not_latest (or_empty (lookup store s.authorization_models))))
          s.authorization_models;
  }

  find_latest-put :
      (m : AuthorizationModel D) (es : Entries D)
      → latest_of
          (find (λ e. e.1.latest) (put m.id (record { model = m; latest = true }) (not_latest es)))
        ≡ some m
  find_latest-put m [] = refl
  find_latest-put m ((k, e) ∷ es) = elim (Bool-cases (text_eq k m.id)) [
    | inl h ↦ rw h refl
    | inr h ↦ rw h (find_latest-put m es)
  ]

  abbrev pub as_found :
      {C : Type 0} → Option (AuthorizationModel D) → Result C (AuthorizationModel D)
  as_found none = err not_found
  as_found (some m) = ok m

  -- The last of the models written to the store, or else the one given.
  abbrev pub last_written :
      Text
      → Option (AuthorizationModel D)
      → List (Text × AuthorizationModel D)
      → Option (AuthorizationModel D)
  last_written store m [] = m
  last_written store m ((s, m') ∷ ws) =
      last_written store (if text_eq s store then some m' else m) ws

  abbrev latest_in : ModelBackend D → Text → Option (AuthorizationModel D)
  latest_in s store = elim (lookup store s.authorization_models) [
    | none ↦ none
    | some tm ↦ find_authorization_model_by_id [] tm
  ]

  find_latest_lem :
      {C : Type 0} (s : ModelBackend D) (store : Text)
      → find_latest_authorization_model {C = C} s store ≡ as_found (latest_in s store)
  unfolding find_latest_authorization_model
  find_latest_lem s store = elim (Option-cases (lookup store s.authorization_models)) [
    | inl e ↦ rw (find_latest_authorization_model, latest_in, e) refl
    | inr (tm, e) ↦ elim (Option-cases (find_authorization_model_by_id [] tm)) [
      | inl k ↦ rw (find_latest_authorization_model, latest_in, e, k) refl
      | inr (m, k) ↦ rw (find_latest_authorization_model, latest_in, e, k) refl
    ]
  ]

  latest_in-write :
      (s : ModelBackend D) (store store' : Text) (m : AuthorizationModel D)
      → latest_in (write_authorization_model s store' m) store
        ≡ (if text_eq store' store then some m else latest_in s store)
  unfolding write_authorization_model find_authorization_model_by_id
  latest_in-write s store store' m =
      let tm : Entries D = or_empty (lookup store' s.authorization_models) in
      let new : Entries D = put m.id (record { model = m; latest = true }) (not_latest tm) in
      let found = lookup-put store store' new s.authorization_models in
      elim (Bool-cases (text_eq store' store)) [
        | inl h ↦ rw (latest_in, found, h) (rw (text_eq_refl []) (find_latest-put m tm))
        | inr h ↦ rw (latest_in, found, h) refl
      ]

  abbrev pub write_all : ModelBackend D → List (Text × AuthorizationModel D) → ModelBackend D
  write_all = foldl (λ s w. write_authorization_model s w.0 w.1)

  latest_in-write_all :
      (ws : List (Text × AuthorizationModel D)) (s : ModelBackend D) (store : Text)
      → latest_in (write_all s ws) store ≡ last_written store (latest_in s store) ws
  latest_in-write_all [] s store = refl
  latest_in-write_all ((store', m) ∷ ws) s store =
      latest_in-write_all ws (write_authorization_model s store' m) store
      ∙ ap (λ z. last_written store z ws) (latest_in-write s store store' m)

  abbrev pub no_models : ModelBackend D
  no_models = record { authorization_models = [] }

  -- After any history of `WriteAuthorizationModel`, from an empty datastore, `FindLatestAuthorizationModel` of a store
  -- gives the model that was written to it last, and no model if none was.
  pub find_latest-write_all :
      {C : Type 0} (ws : List (Text × AuthorizationModel D)) (store : Text)
      → find_latest_authorization_model {C = C} (write_all no_models ws) store
        ≡ as_found (last_written store none ws)
  find_latest-write_all ws store =
      find_latest_lem (write_all no_models ws) store
      ∙ ap as_found (latest_in-write_all ws no_models store)

-- `WriteAssertions` and `ReadAssertions`; `A` is the type of an assertion.
module _ {A : Type 0} where
  abbrev pub write_assertions : List (Text × List A) → Text → Text → List A → List (Text × List A)
  write_assertions s store model_id assertions = put (assertions_id store model_id) assertions s

  abbrev pub read_assertions : List (Text × List A) → Text → Text → List A
  read_assertions s store model_id = or_empty (lookup (assertions_id store model_id) s)
