-- ===== src/Storage/Memory/Distinct.antt =====
-- The keys that a list of records holds, and the record that `Write` makes of a key.
use kengen.Base.{
  ℕ, Text, ◌≡◌, refl, Bool, false, List, [], ◌∷◌, ◌++◌, arith, filter, any, any-append, All,
  Bool-cases, inl, inr,
}
use kengen.Tuple.Key.{TupleKey, TupleKeyWithoutCondition}
use kengen.Tuple.UserForms.{to_user_parts-valid}
use kengen.Storage.Record.{TupleRecord, as_tuple}
use kengen.Storage.Memory.Match.{matches}
use kengen.Storage.Memory.Write.{insertion, insertion_change}
use kengen.Storage.Memory.Keys.{
  key_of, same_key, same_key_iff, WellFormed, ValidKey, split_object-valid, matches_valid,
}
use kengen.Storage.Memory.Changelog.{bare}

module _ {C : Type 0} where
  -- Some record has the key.
  abbrev pub has_key : List (TupleRecord C) → TupleKeyWithoutCondition → Bool
  has_key rs k = any (λ r. same_key (key_of r) k) rs

  -- No two records have the same key.
  abbrev pub Distinct : List (TupleRecord C) → Type 0
  Distinct [] = Unit {0}
  Distinct (r ∷ rs) = (has_key rs (key_of r) ≡ false) × Distinct rs

  pub has_key-filter :
      (p : TupleRecord C → Bool) (rs : List (TupleRecord C)) (k : TupleKeyWithoutCondition)
      → has_key rs k ≡ false
      → has_key (filter p rs) k ≡ false
  has_key-filter p [] k h = refl
  has_key-filter p (r ∷ rs) k h = ground (arith, has_key-filter p rs k)

  pub Distinct-filter :
      (p : TupleRecord C → Bool) (rs : List (TupleRecord C)) → Distinct rs → Distinct (filter p rs)
  Distinct-filter p [] h = tt
  Distinct-filter p (r ∷ rs) h = elim (Bool-cases (p r)) [
    | inl e ↦ rw e (has_key-filter p rs (key_of r) h.0, Distinct-filter p rs h.1)
    | inr e ↦ rw e (Distinct-filter p rs h.1)
  ]

  pub Distinct-append :
      (rs : List (TupleRecord C)) (r : TupleRecord C)
      → Distinct rs
      → has_key rs (key_of r) ≡ false
      → Distinct (rs ++ (r ∷ []))
  Distinct-append [] r d h = (refl, tt)
  Distinct-append (x ∷ rs) r d h = (
    ground (
      arith,
      any-append (λ y. same_key (key_of y) (key_of x)) rs (r ∷ []),
      same_key_iff (key_of x) (key_of r),
      same_key_iff (key_of r) (key_of x),
    ),
    Distinct-append rs r d.1 (ground arith),
  )

  pub any-matches :
      (rs : List (TupleRecord C)) (k : TupleKeyWithoutCondition)
      → All WellFormed rs
      → ValidKey k
      → any (λ et. matches et k.object k.relation k.user) rs ≡ has_key rs k
  any-matches [] k w v = refl
  any-matches (r ∷ rs) k w v = ground (arith, matches_valid r k w.0 v, any-matches rs k w.1 v)

  pub insertion-WellFormed :
      (store : Text) (now ulid : ℕ) (t : TupleKey C)
      → ValidKey (bare t)
      → WellFormed (insertion store now ulid t)
  insertion-WellFormed store now ulid t v = record {
    type_lacks_colon = (split_object-valid t.object v.object_ok).0;
    user_some = (to_user_parts-valid t.user v.user_ok).1;
  }

  pub key_of-insertion :
      (store : Text) (now ulid : ℕ) (t : TupleKey C)
      → ValidKey (bare t)
      → key_of (insertion store now ulid t) ≡ bare t
  key_of-insertion store now ulid t v = ground (arith, split_object-valid t.object v.object_ok)

  -- The change that is logged has the key of the tuple that is stored.
  pub tuple_key-insertion :
      (e : C) (store : Text) (now ulid ulid' : ℕ) (t : TupleKey C)
      → ValidKey (bare t)
      → (insertion_change e now ulid' t).change.tuple_key
        ≡ (as_tuple e (insertion store now ulid t)).key
  unfolding as_tuple
  tuple_key-insertion e store now ulid ulid' t v =
      ground (arith, (to_user_parts-valid t.user v.user_ok).1)
