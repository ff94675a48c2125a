-- ===== src/Storage/Memory/Effect.antt =====
-- What `Write` does to a store, for every option.
use kengen.Base.{
  ℕ, Text, text_eq_refl, ◌≡◌, refl, ap, ◌∙◌, Bool, true, false, not, ◌&&◌, ◌||◌, Option, List, [],
  ◌∷◌, arith, filter, filter-ext, any, any-append, All, All-mem, if◌then◌else◌, Bool-cases, inl,
  inr,
}
use kengen.Tuple.Key.{TupleKey, TupleKeyWithoutCondition}
use kengen.Storage.Record.{TupleRecord, TupleWriteOption, new_tuple_write_options, Result-cases, ok}
use kengen.Storage.Memory.Match.{matches}
use kengen.Storage.Memory.Write.{
  TupleBackend, Progress, insertion, is_deleted, delete_loop, write_loop, sanitize_deletes,
  sanitize_writes, apply_writes, write,
}
use kengen.Storage.Memory.Keys.{key_of, same_key, same_key_iff, WellFormed, ValidKey, matches_valid}
use kengen.Storage.Memory.Changelog.{bare, records-delete_loop}
use kengen.Storage.Memory.Distinct.{has_key, any-matches, key_of-insertion}
use kengen.Storage.Memory.Consistent.{
  Consistent, inserted, write_step-Consistent, write_loop-Consistent, delete_loop-Consistent,
}
use kengen.Storage.Memory.Sanitize.{hits, Skips-sanitize, is_deleted-Skips}

or_assoc : (a b c : Bool) → ((a || b) || c) ≡ (a || (b || c))
or_assoc true b c = refl
or_assoc false b c = refl

module _ {C : Type 0} where
  -- A `Write` that succeeds has passed both checks.
  pub write_ok :
      (e : C) (cs : Option C → Text) (s : TupleBackend C) (store : Text)
      (deletes : List TupleKeyWithoutCondition) (writes : List (TupleKey C))
      (opts : List TupleWriteOption) (now : ℕ) (mint : ℕ → ℕ) (s' : TupleBackend C)
      → write e cs s store deletes writes opts now mint ≡ ok s'
      → (dups : List ℕ) × (sanitize_deletes
            (s.tuples store)
            (new_tuple_write_options opts).on_missing_delete
            0
            deletes
          ≡ ok dups)
        × (s' ≡ apply_writes e s store deletes writes now mint dups)
  unfolding write
  write_ok e cs s store deletes writes opts now mint s' h =
      let o = new_tuple_write_options opts in
      elim (Result-cases (sanitize_deletes (s.tuples store) o.on_missing_delete 0 deletes)) [
        | inr (x, p) ↦ absurd (ground arith)
        | inl (dups, p) ↦
            elim (Result-cases
              (sanitize_writes cs (s.tuples store) o.on_duplicate_insert 0 writes)) [
                | inr (x, q) ↦ absurd (ground arith)
                | inl (dups', q) ↦ (dups, p, ground arith)
              ]
      ]

  -- After a `Write` that succeeds, with any options, the store is again consistent: its records are
  -- well formed, no two have the same key, and the replayed changelog gives exactly their tuple
  -- keys, conditions and order included. The keys written are valid; the store was consistent.
  pub write-Consistent :
      (e : C) (cs : Option C → Text) (s : TupleBackend C) (store : Text)
      (deletes : List TupleKeyWithoutCondition) (writes : List (TupleKey C))
      (opts : List TupleWriteOption) (now : ℕ) (mint : ℕ → ℕ) (s' : TupleBackend C)
      → All (λ t. ValidKey (bare t)) writes
      → Consistent e (s.tuples store) (s.changes store)
      → write e cs s store deletes writes opts now mint ≡ ok s'
      → Consistent e (s'.tuples store) (s'.changes store)
  unfolding apply_writes
  write-Consistent e cs s store deletes writes opts now mint s' v c h =
      let (dups, p, q) = write_ok e cs s store deletes writes opts now mint s' h in
      rw (q, text_eq_refl store)
        (write_loop-Consistent e store now mint writes
          (delete_loop e now mint (is_deleted dups 0 deletes) (s.tuples store)
            (record { records = []; changes = s.changes store; minted = 0 }))
          v (delete_loop-Consistent e now mint dups deletes (s.tuples store) (s.changes store) c))

  -- Among the records that are left, those with a key that some delete has are gone.
  has_key-deleted :
      (deletes : List TupleKeyWithoutCondition) (k : TupleKeyWithoutCondition)
      (rs : List (TupleRecord C))
      → has_key (filter (λ r. not (any (λ d. same_key (key_of r) d) deletes)) rs) k
        ≡ (has_key rs k && not (any (λ d. same_key k d) deletes))
  has_key-deleted deletes k [] = refl
  has_key-deleted deletes k (r ∷ rs) = elim (Bool-cases (same_key (key_of r) k)) [
    | inl e ↦
        let p = ap (λ x. any (λ d. same_key x d) deletes) ((same_key_iff (key_of r) k).0 e) in
        ground (arith, has_key-deleted deletes k rs)
    | inr ne ↦ ground (arith, has_key-deleted deletes k rs)
  ]

  any-hits :
      (r : TupleRecord C) (ks : List TupleKeyWithoutCondition)
      → WellFormed r
      → All ValidKey ks
      → any (λ k. hits k r) ks ≡ any (λ k. same_key (key_of r) k) ks
  any-hits r [] w v = refl
  any-hits r (k ∷ ks) w v = rw (matches_valid r k w v.0, any-hits r ks w v.1)

  has_key-step :
      (e : C) (store : Text) (now : ℕ) (mint : ℕ → ℕ) (k : TupleKeyWithoutCondition)
      (t : TupleKey C) (p : Progress C) (b : Bool)
      → any (λ et. matches et t.object t.relation t.user) p.records ≡ b
      → ValidKey (bare t)
      → All WellFormed p.records
      → has_key (if b then p else inserted e store now mint t p).records k
        ≡ (has_key p.records k || same_key (bare t) k)
  has_key-step e store now mint k t p true h v w = elim (Bool-cases (same_key (bare t) k)) [
    | inl same ↦
        let x = ap (has_key p.records) ((same_key_iff (bare t) k).0 same) in
        ground (arith, any-matches p.records (bare t) w v)
    | inr other ↦ ground arith
  ]
  has_key-step e store now mint k t p false h v w =
      let r = insertion store now (mint p.minted) t in
      any-append (λ x. same_key (key_of x) k) p.records (r ∷ [])
      ∙ ground (arith, ap (λ x. same_key x k) (key_of-insertion store now (mint p.minted) t v))

  has_key-write_loop :
      (e : C) (store : Text) (now : ℕ) (mint : ℕ → ℕ) (k : TupleKeyWithoutCondition)
      (ts : List (TupleKey C)) (p : Progress C)
      → All (λ t. ValidKey (bare t)) ts
      → Consistent e p.records p.changes
      → has_key (write_loop e store now mint ts p).records k
        ≡ (has_key p.records k || any (λ t. same_key (bare t) k) ts)
  unfolding write_loop
  has_key-write_loop e store now mint k [] p v c = ground arith
  has_key-write_loop e store now mint k (t ∷ ts) p v c =
      let b = any (λ et. matches et t.object t.relation t.user) p.records in
      let step = has_key-step e store now mint k t p b refl v.0 c.formed in
      has_key-write_loop e store now mint k ts (if b then p else inserted e store now mint t p) v.1
        (write_step-Consistent e store now mint t p b refl v.0 c)
      ∙ ap (λ z. z || any (λ t. same_key (bare t) k) ts) step
      ∙ or_assoc (has_key p.records k) (same_key (bare t) k) (any (λ t. same_key (bare t) k) ts)

  -- After a `Write` that succeeds, with any options, a key is in the store exactly when it is one
  -- of the keys written, or was in the store before and is not one of the keys deleted. The keys
  -- deleted and written are valid; the store was consistent.
  pub has_key-write :
      (e : C) (cs : Option C → Text) (s : TupleBackend C) (store : Text)
      (deletes : List TupleKeyWithoutCondition) (writes : List (TupleKey C))
      (opts : List TupleWriteOption) (now : ℕ) (mint : ℕ → ℕ) (s' : TupleBackend C)
      (k : TupleKeyWithoutCondition)
      → All ValidKey deletes
      → All (λ t. ValidKey (bare t)) writes
      → Consistent e (s.tuples store) (s.changes store)
      → write e cs s store deletes writes opts now mint ≡ ok s'
      → has_key (s'.tuples store) k ≡ (
          (has_key (s.tuples store) k && not (any (λ d. same_key k d) deletes))
          || any (λ t. same_key (bare t) k) writes)
  unfolding apply_writes
  has_key-write e cs s store deletes writes opts now mint s' k vd vw c h =
      let (dups, sane, q) = write_ok e cs s store deletes writes opts now mint s' h in
      let o = (new_tuple_write_options opts).on_missing_delete in
      let rs = s.tuples store in
      let d = is_deleted dups 0 deletes in
      let start : Progress C = record { records = []; changes = s.changes store; minted = 0 } in
      let left = λ (r : TupleRecord C). not (any (λ x. same_key (key_of r) x) deletes) in
      rw (q, text_eq_refl store)
        (has_key-write_loop e store now mint k writes (delete_loop e now mint d rs start) vw
            (delete_loop-Consistent e now mint dups deletes rs (s.changes store) c)
          ∙ ap (λ z. has_key z k || any (λ t. same_key (bare t) k) writes)
              (records-delete_loop e now mint d rs start
                ∙ filter-ext (λ r. not (d r)) left rs
                    (λ r m. ap not (
                      is_deleted-Skips rs dups 0 deletes r m
                        (Skips-sanitize rs o 0 deletes dups sane)
                      ∙ any-hits r deletes (All-mem WellFormed rs c.formed m) vd)))
          ∙ ap (λ z. z || any (λ t. same_key (bare t) k) writes) (has_key-deleted deletes k rs))
