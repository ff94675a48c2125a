-- ===== src/Storage/Memory/Sanitize.antt =====
-- What the checks of `sanitizeTuplesWriteDelete` establish.
use mathlib.Core.List.Memᴰ
use kengen.Base.{
  ℕ, suc, ◌≤◌, ◌<◌, Text, ◌≡◌, refl, sym, ap, Bool, true, false, not, Option, none, some, List, [],
  ◌∷◌, arith, find, any, Memᴰ, subst, Option-cases, ◌⊎◌, inl, inr,
}
use kengen.Tuple.Key.{TupleKey, TupleKeyWithoutCondition, tuple_key_to_tuple_key_without_condition}
use kengen.Storage.Record.{
  TupleRecord, OnMissingDelete, missing_error, missing_ignore, duplicate_error, ok, err,
  Result-cases, invalid_write_input, operation_write, operation_delete,
}
use kengen.Storage.Memory.Match.{matches}
use kengen.Storage.Memory.Write.{contains, sanitize_deletes, sanitize_writes, is_deleted}

module _ {C : Type 0} where
  abbrev pub hits : TupleKeyWithoutCondition → TupleRecord C → Bool
  hits k r = matches r k.object k.relation k.user

  -- `find` finds nothing exactly when nothing matches.
  pub find-none :
      (p : TupleRecord C → Bool) (rs : List (TupleRecord C)) → find p rs ≡ none → any p rs ≡ false
  find-none p [] h = refl
  find-none p (r ∷ rs) h = ground (arith, find-none p rs)

  pub find-some :
      (p : TupleRecord C → Bool) (rs : List (TupleRecord C)) (r : TupleRecord C)
      → find p rs ≡ some r
      → any p rs ≡ true
  find-some p [] r h = cc
  find-some p (x ∷ rs) r h = ground (arith, find-some p rs r)

  -- An index that is skipped stands for a delete that matches no record.
  abbrev Skips : List (TupleRecord C) → List ℕ → ℕ → List TupleKeyWithoutCondition → Type 0
  Skips rs dups i [] = Unit {0}
  Skips rs dups i (k ∷ ks) =
      (contains dups i ≡ true → any (hits k) rs ≡ false) × Skips rs dups (suc i) ks

  Skips-weaken :
      (rs : List (TupleRecord C)) (dups : List ℕ) (m i : ℕ) (ks : List TupleKeyWithoutCondition)
      → m < i
      → Skips rs dups i ks
      → Skips rs (m ∷ dups) i ks
  Skips-weaken rs dups m i [] lt h = tt
  Skips-weaken rs dups m i (k ∷ ks) lt h =
      (λ c. h.0 (ground arith), Skips-weaken rs dups m (suc i) ks (omega arith) h.1)

  -- How a check of the deletes that succeeds goes on.
  sanitize_step :
      (rs : List (TupleRecord C)) (opt : OnMissingDelete) (i : ℕ) (k : TupleKeyWithoutCondition)
      (ks : List TupleKeyWithoutCondition) (dups : List ℕ)
      → sanitize_deletes rs opt i (k ∷ ks) ≡ ok dups
      → (any (hits k) rs ≡ true) × (sanitize_deletes rs opt (suc i) ks ≡ ok dups)
        ⊎ ((rest : List ℕ) × (any (hits k) rs ≡ false)
            × (dups ≡ i ∷ rest)
            × (sanitize_deletes rs opt (suc i) ks ≡ ok rest))
  unfolding sanitize_deletes
  sanitize_step rs missing_error i k ks dups h = elim (Option-cases (find (hits k) rs)) [
    | inl e ↦ absurd (ground arith)
    | inr (r, e) ↦ inl (find-some (hits k) rs r e, ground arith)
  ]
  sanitize_step rs missing_ignore i k ks dups h = elim (Option-cases (find (hits k) rs)) [
    | inr (r, e) ↦ inl (find-some (hits k) rs r e, ground arith)
    | inl e ↦ elim (Result-cases (sanitize_deletes rs missing_ignore (suc i) ks)) [
      | inl (rest, e') ↦ inr (rest, find-none (hits k) rs e, ground arith, e')
      | inr (x, e') ↦ absurd (ground arith)
    ]
  ]

  contains-sanitize :
      (rs : List (TupleRecord C)) (opt : OnMissingDelete) (i : ℕ)
      (ks : List TupleKeyWithoutCondition) (dups : List ℕ) (j : ℕ)
      → sanitize_deletes rs opt i ks ≡ ok dups
      → contains dups j ≡ true
      → i ≤ j
  unfolding sanitize_deletes
  contains-sanitize rs opt i [] dups j h c = ground arith
  contains-sanitize rs opt i (k ∷ ks) dups j h c = elim (sanitize_step rs opt i k ks dups h) [
    | inl (found, e) ↦ omega (arith, contains-sanitize rs opt (suc i) ks dups j e c)
    | inr (rest, missing, e, e') ↦ ground (arith, contains-sanitize rs opt (suc i) ks rest j e')
  ]

  pub Skips-sanitize :
      (rs : List (TupleRecord C)) (opt : OnMissingDelete) (i : ℕ)
      (ks : List TupleKeyWithoutCondition) (dups : List ℕ)
      → sanitize_deletes rs opt i ks ≡ ok dups
      → Skips rs dups i ks
  unfolding sanitize_deletes
  Skips-sanitize rs opt i [] dups h = tt
  Skips-sanitize rs opt i (k ∷ ks) dups h = elim (sanitize_step rs opt i k ks dups h) [
    | inl (found, e) ↦ (
      λ c. absurd (omega (arith, contains-sanitize rs opt (suc i) ks dups i e c)),
      Skips-sanitize rs opt (suc i) ks dups e,
    )
    | inr (rest, missing, e, e') ↦
        subst (λ d. Skips rs d i (k ∷ ks)) (sym e)
          (
            λ c. missing,
            Skips-weaken rs rest i (suc i) ks (omega arith)
                (Skips-sanitize rs opt (suc i) ks rest e'),
          )
  ]

  any_mem :
      (p : TupleRecord C → Bool) (rs : List (TupleRecord C)) (r : TupleRecord C)
      → Memᴰ r rs
      → p r ≡ true
      → any p rs ≡ true
  any_mem p [] r m h = absurd (Memᴰ.not-nil m)
  any_mem p (x ∷ rs) r (Memᴰ.head e) h = ground (arith, ap p e)
  any_mem p (x ∷ rs) r (Memᴰ.tail m) h = ground (arith, any_mem p rs r m h)

  -- Under the skipped indices a record is deleted exactly when some delete matches it.
  pub is_deleted-Skips :
      (rs : List (TupleRecord C)) (dups : List ℕ) (i : ℕ) (ks : List TupleKeyWithoutCondition)
      (r : TupleRecord C)
      → Memᴰ r rs
      → Skips rs dups i ks
      → is_deleted dups i ks r ≡ any (λ k. hits k r) ks
  unfolding is_deleted
  is_deleted-Skips rs dups i [] r m h = refl
  is_deleted-Skips rs dups i (k ∷ ks) r m h =
      ground (arith, is_deleted-Skips rs dups (suc i) ks r m h.1, any_mem (hits k) rs r m, h.0)

  -- With errors on, the check of the deletes passes exactly when each matches some record.
  pub sanitize_deletes_error :
      (rs : List (TupleRecord C)) (i : ℕ) (ks : List TupleKeyWithoutCondition)
      → sanitize_deletes rs missing_error i ks ≡ (elim (find (λ k. not (any (hits k) rs)) ks) [
        | none ↦ ok []
        | some k ↦ err (invalid_write_input operation_delete k)
      ])
  unfolding sanitize_deletes
  sanitize_deletes_error rs i [] = refl
  sanitize_deletes_error rs i (k ∷ ks) = elim (Option-cases (find (hits k) rs)) [
    | inl e ↦ ground (arith, find-none (hits k) rs e)
    | inr (r, e) ↦ ground (arith, find-some (hits k) rs r e, sanitize_deletes_error rs (suc i) ks)
  ]

  -- With errors on, the check of the writes passes exactly when none matches a record.
  pub sanitize_writes_error :
      (context_string : Option C → Text) (rs : List (TupleRecord C)) (i : ℕ)
      (ts : List (TupleKey C))
      → sanitize_writes context_string rs duplicate_error i ts
        ≡ (elim (find (λ t. any (hits (tuple_key_to_tuple_key_without_condition t)) rs) ts) [
          | none ↦ ok []
          | some t ↦
              err (invalid_write_input operation_write (tuple_key_to_tuple_key_without_condition t))
        ])
  unfolding sanitize_writes
  sanitize_writes_error context_string rs i [] = refl
  sanitize_writes_error context_string rs i (t ∷ ts) =
      elim (Option-cases (find (hits (tuple_key_to_tuple_key_without_condition t)) rs)) [
        | inl e ↦ ground (
          arith,
          find-none (hits (tuple_key_to_tuple_key_without_condition t)) rs e,
          sanitize_writes_error context_string rs (suc i) ts,
        )
        | inr (r, e) ↦
            ground (arith, find-some (hits (tuple_key_to_tuple_key_without_condition t)) rs r e)
      ]
