-- ===== src/Storage/Memory/Changelog.antt =====
-- What the changelog of a store says: replayed from the start it gives the store's tuple keys.
use kengen.Base.{
  ℕ, suc, ◌≡◌, refl, sym, ap, ◌∙◌, Bool, true, false, not, ◌&&◌, ◌||◌, List, [], ◌∷◌, ◌++◌, map,
  foldl, foldl-append, append_assoc, append-nil, Memᴰ, arith, filter, any, All, All-filter,
  filter-ext, filter-filter, Bool-cases, inl, inr,
}
use mathlib.Core.List.Memᴰ
use kengen.Tuple.Key.{
  TupleKey, TupleKeyWithoutCondition, new_tuple_key_with_condition,
  tuple_key_to_tuple_key_without_condition,
}
use kengen.Storage.Record.{
  TupleRecord, as_tuple, operation_write, operation_delete, TupleOperation, TupleChangeRec,
}
use kengen.Storage.Memory.Write.{Progress, deletion, delete_loop}
use kengen.Storage.Memory.Keys.{key_of, same_key, same_key_iff, WellFormed}

not_or : (a b : Bool) → (not a && not b) ≡ not (a || b)
not_or true b = refl
not_or false b = refl

filter_all {ℓ} :
    {A : Type ℓ} (p : A → Bool) (xs : List A) → ((x : A) → p x ≡ true) → filter p xs ≡ xs
filter_all p [] h = refl
filter_all p (x ∷ xs) h = rw (h x) (ap (λ z. x ∷ z) (filter_all p xs h))

module _ {C : Type 0} where
  abbrev pub bare : TupleKey C → TupleKeyWithoutCondition
  bare = tuple_key_to_tuple_key_without_condition

  -- The keys without the given one.
  abbrev pub remove : TupleKeyWithoutCondition → List (TupleKey C) → List (TupleKey C)
  remove k = filter (λ j. not (same_key (bare j) k))

  abbrev pub replay_step : List (TupleKey C) → TupleOperation → TupleKey C → List (TupleKey C)
  replay_step keys operation_write tk = keys ++ (tk ∷ [])
  replay_step keys operation_delete tk = remove (bare tk) keys

  -- The tuple keys that a changelog leads to.
  unfoldable pub replay : List (TupleChangeRec C) → List (TupleKey C)
  replay = foldl (λ keys c. replay_step keys c.change.operation c.change.tuple_key) []

  pub replay-append :
      (cs : List (TupleChangeRec C)) (c : TupleChangeRec C)
      → replay (cs ++ (c ∷ [])) ≡ replay_step (replay cs) c.change.operation c.change.tuple_key
  unfolding replay
  replay-append cs c = rw foldl-append

  -- The tuple keys of the records, as a reader sees them.
  abbrev pub tuple_keys : C → List (TupleRecord C) → List (TupleKey C)
  tuple_keys e = map (λ r. (as_tuple e r).key)

  pub bare_as_tuple :
      (e : C) (r : TupleRecord C) → WellFormed r → bare (as_tuple e r).key ≡ key_of r
  unfolding as_tuple new_tuple_key_with_condition
  bare_as_tuple e r w = ground arith

  remove-tuple_keys :
      (e : C) (k : TupleKeyWithoutCondition) (rs : List (TupleRecord C))
      → All WellFormed rs
      → remove k (tuple_keys e rs) ≡ tuple_keys e (filter (λ r. not (same_key (key_of r) k)) rs)
  remove-tuple_keys e k [] w = refl
  remove-tuple_keys e k (r ∷ rs) w =
      ground (arith, bare_as_tuple e r w.0, remove-tuple_keys e k rs w.1)

  -- The changes of the records that `deleted` picks, replayed.
  abbrev remove_all : List (TupleRecord C) → List (TupleKey C) → List (TupleKey C)
  remove_all [] keys = keys
  remove_all (r ∷ rs) keys = remove_all rs (remove (key_of r) keys)

  abbrev is_among : List (TupleRecord C) → TupleRecord C → Bool
  is_among ds r = any (λ d. same_key (key_of r) (key_of d)) ds

  remove_all-tuple_keys :
      (e : C) (ds rs : List (TupleRecord C))
      → All WellFormed rs
      → remove_all ds (tuple_keys e rs) ≡ tuple_keys e (filter (λ r. not (is_among ds r)) rs)
  remove_all-tuple_keys e [] rs w = ap (tuple_keys e) (sym (filter_all (λ _. true) rs (λ r. refl)))
  remove_all-tuple_keys e (d ∷ ds) rs w = rw (remove-tuple_keys e (key_of d) rs w) (
      remove_all-tuple_keys e ds (filter (λ r. not (same_key (key_of r) (key_of d))) rs)
        (All-filter WellFormed (λ r. not (same_key (key_of r) (key_of d))) rs w)
      ∙ ap (tuple_keys e) (
          filter-filter (λ r. not (is_among ds r)) (λ r. not (same_key (key_of r) (key_of d))) rs
          ∙ filter-ext (λ r. not (same_key (key_of r) (key_of d)) && not (is_among ds r))
              (λ r. not (is_among (d ∷ ds) r)) rs
              (λ r m. not_or (same_key (key_of r) (key_of d)) (is_among ds r))))

  pub records-delete_loop :
      (e : C) (now : ℕ) (mint : ℕ → ℕ) (deleted : TupleRecord C → Bool) (rs : List (TupleRecord C))
      (p : Progress C)
      → (delete_loop e now mint deleted rs p).records
        ≡ p.records ++ filter (λ r. not (deleted r)) rs
  unfolding delete_loop
  records-delete_loop e now mint deleted [] p = sym (append-nil p.records)
  records-delete_loop e now mint deleted (r ∷ rs) p = elim (Bool-cases (deleted r)) [
    | inl gone ↦
        rw (gone, delete_loop)
          (records-delete_loop e now mint deleted rs (record p {
            changes = p.changes ++ (deletion e now (mint p.minted) r ∷ []);
            minted = suc p.minted;
          }))
    | inr kept ↦
        rw (kept, delete_loop)
          (records-delete_loop e now mint deleted rs (record p { records = p.records ++ (r ∷ []) })
            ∙ append_assoc p.records (r ∷ []) (filter (λ r. not (deleted r)) rs))
  ]

  replay-delete_loop :
      (e : C) (now : ℕ) (mint : ℕ → ℕ) (deleted : TupleRecord C → Bool) (rs : List (TupleRecord C))
      (p : Progress C)
      → All WellFormed rs
      → replay (delete_loop e now mint deleted rs p).changes
        ≡ remove_all (filter deleted rs) (replay p.changes)
  unfolding delete_loop
  replay-delete_loop e now mint deleted [] p w = refl
  replay-delete_loop e now mint deleted (r ∷ rs) p w = elim (Bool-cases (deleted r)) [
    | inl gone ↦
        rw (gone, delete_loop)
          (replay-delete_loop e now mint deleted rs
              (record p {
                changes = p.changes ++ (deletion e now (mint p.minted) r ∷ []);
                minted = suc p.minted;
              })
              w.1
            ∙ ap (remove_all (filter deleted rs)) (
                replay-append p.changes (deletion e now (mint p.minted) r)
                ∙ ap (λ k. remove k (replay p.changes)) (bare_as_tuple e r w.0)))
    | inr kept ↦
        rw (kept, delete_loop)
          (replay-delete_loop e now mint deleted rs (record p { records = p.records ++ (r ∷ []) })
            w.1)
  ]

  -- A record is deleted exactly when a record with its key is.
  is_among_deleted :
      (deleted : TupleRecord C → Bool) (rs : List (TupleRecord C)) (r : TupleRecord C)
      → ((r' : TupleRecord C) → Memᴰ r' rs → key_of r ≡ key_of r' → deleted r ≡ deleted r')
      → is_among (filter deleted rs) r ≡ true
      → deleted r ≡ true
  is_among_deleted deleted [] r same h = cc
  is_among_deleted deleted (d ∷ rs) r same h = elim (Bool-cases (deleted d)) [
    | inl gone ↦ elim (Bool-cases (same_key (key_of r) (key_of d))) [
      | inl e ↦ same d (Memᴰ.head refl) ((same_key_iff (key_of r) (key_of d)).0 e) ∙ gone
      | inr ne ↦ is_among_deleted deleted rs r (λ r' m. same r' (Memᴰ.tail m)) (ground arith)
    ]
    | inr kept ↦ is_among_deleted deleted rs r (λ r' m. same r' (Memᴰ.tail m)) (ground arith)
  ]

  among-deleted :
      (deleted : TupleRecord C → Bool) (rs : List (TupleRecord C)) (r : TupleRecord C)
      → Memᴰ r rs
      → deleted r ≡ true
      → is_among (filter deleted rs) r ≡ true
  among-deleted deleted [] r m h = absurd (Memᴰ.not-nil m)
  among-deleted deleted (d ∷ rs) r (Memᴰ.head e) h =
      let gone : deleted d ≡ true = ap deleted (sym e) ∙ h in
      rw gone (ground (arith, same_key_iff (key_of r) (key_of d), ap key_of e))
  among-deleted deleted (d ∷ rs) r (Memᴰ.tail m) h = ground (arith, among-deleted deleted rs r m h)

  among_eq :
      (deleted : TupleRecord C → Bool) (rs : List (TupleRecord C)) (r : TupleRecord C)
      → Memᴰ r rs
      → ((r' : TupleRecord C) → Memᴰ r' rs → key_of r ≡ key_of r' → deleted r ≡ deleted r')
      → is_among (filter deleted rs) r ≡ deleted r
  among_eq deleted rs r m same =
      ground (arith, among-deleted deleted rs r m, is_among_deleted deleted rs r same)

  -- The loop `Delete` keeps the changelog in step with the records, when records with one key are
  -- deleted together.
  pub delete_loop-replay :
      (e : C) (now : ℕ) (mint : ℕ → ℕ) (deleted : TupleRecord C → Bool) (rs : List (TupleRecord C))
      (cs : List (TupleChangeRec C))
      → All WellFormed rs
      → ((r r' : TupleRecord C)
          → Memᴰ r rs
          → Memᴰ r' rs
          → key_of r ≡ key_of r'
          → deleted r ≡ deleted r')
      → replay cs ≡ tuple_keys e rs
      → let p =
          delete_loop e now mint deleted rs (record { records = []; changes = cs; minted = 0 }) in
        replay p.changes ≡ tuple_keys e p.records
  delete_loop-replay e now mint deleted rs cs w same h =
      let start : Progress C = record { records = []; changes = cs; minted = 0 } in
      replay-delete_loop e now mint deleted rs start w
      ∙ ap (remove_all (filter deleted rs)) h
      ∙ remove_all-tuple_keys e (filter deleted rs) rs w
      ∙ ap (tuple_keys e) (
          filter-ext (λ r. not (is_among (filter deleted rs) r)) (λ r. not (deleted r)) rs
            (λ r m. ap not (among_eq deleted rs r m (λ r' m'. same r r' m m')))
          ∙ sym (records-delete_loop e now mint deleted rs start))
