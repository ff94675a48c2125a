-- ===== src/Storage/Memory/Consistent.antt =====
-- `Write` keeps the tuples of a store distinct and in step with its changelog.
use kengen.Base.{
  ℕ, suc, Text, ◌≡◌, refl, sym, ap, ◌∙◌, Bool, true, false, not, List, [], ◌∷◌, ◌++◌, map-append,
  any, All, All-append, All-filter, All-mem, if◌then◌else◌,
}
use kengen.Tuple.Key.{TupleKey, TupleKeyWithoutCondition}
use kengen.Storage.Record.{TupleRecord, as_tuple, TupleChangeRec}
use kengen.Storage.Memory.Match.{matches}
use kengen.Storage.Memory.Write.{
  Progress, insertion, insertion_change, is_deleted, delete_loop, write_loop,
}
use kengen.Storage.Memory.Keys.{key_of, WellFormed, ValidKey, matches_same_key}
use kengen.Storage.Memory.Changelog.{
  bare, replay, replay-append, tuple_keys, records-delete_loop, delete_loop-replay,
}
use kengen.Storage.Memory.Distinct.{
  has_key, Distinct, Distinct-filter, Distinct-append, any-matches, insertion-WellFormed,
  key_of-insertion, tuple_key-insertion,
}

module _ {C : Type 0} where
  pub record Consistent (e : C) (rs : List (TupleRecord C)) (cs : List (TupleChangeRec C))
      : Type 0 where
    pub formed : All WellFormed rs
    pub distinct : Distinct rs
    pub replayed : replay cs ≡ tuple_keys e rs

  abbrev pub inserted : C → Text → ℕ → (ℕ → ℕ) → TupleKey C → Progress C → Progress C
  inserted e store now mint t p = record p {
    records = p.records ++ (insertion store now (mint p.minted) t ∷ []);
    changes = p.changes ++ (insertion_change e now (mint (suc p.minted)) t ∷ []);
    minted = suc (suc p.minted);
  }

  inserted-Consistent :
      (e : C) (store : Text) (now : ℕ) (mint : ℕ → ℕ) (t : TupleKey C) (p : Progress C)
      → ValidKey (bare t)
      → any (λ et. matches et t.object t.relation t.user) p.records ≡ false
      → Consistent e p.records p.changes
      → let q = inserted e store now mint t p in Consistent e q.records q.changes
  inserted-Consistent e store now mint t p v new c =
      let r = insertion store now (mint p.minted) t in
      record {
        formed =
            All-append WellFormed p.records (r ∷ []) c.formed
              (insertion-WellFormed store now (mint p.minted) t v, tt);
        distinct = Distinct-append p.records r c.distinct (
            ap (has_key p.records) (key_of-insertion store now (mint p.minted) t v)
            ∙ sym (any-matches p.records (bare t) c.formed v)
            ∙ new);
        replayed =
            replay-append p.changes (insertion_change e now (mint (suc p.minted)) t)
            ∙ ap (λ tk. replay p.changes ++ (tk ∷ []))
                (tuple_key-insertion e store now (mint p.minted) (mint (suc p.minted)) t v)
            ∙ ap (λ ks. ks ++ ((as_tuple e r).key ∷ [])) c.replayed
            ∙ sym (map-append (λ x. (as_tuple e x).key) p.records (r ∷ []));
      }

  pub write_step-Consistent :
      (e : C) (store : Text) (now : ℕ) (mint : ℕ → ℕ) (t : TupleKey C) (p : Progress C) (b : Bool)
      → any (λ et. matches et t.object t.relation t.user) p.records ≡ b
      → ValidKey (bare t)
      → Consistent e p.records p.changes
      → let q = if b then p else inserted e store now mint t p in Consistent e q.records q.changes
  write_step-Consistent e store now mint t p true h v c = c
  write_step-Consistent e store now mint t p false h v c =
      inserted-Consistent e store now mint t p v h c

  pub write_loop-Consistent :
      (e : C) (store : Text) (now : ℕ) (mint : ℕ → ℕ) (ts : List (TupleKey C)) (p : Progress C)
      → All (λ t. ValidKey (bare t)) ts
      → Consistent e p.records p.changes
      → let q = write_loop e store now mint ts p in Consistent e q.records q.changes
  unfolding write_loop
  write_loop-Consistent e store now mint [] p v c = c
  write_loop-Consistent e store now mint (t ∷ ts) p v c =
      let b = any (λ et. matches et t.object t.relation t.user) p.records in
      write_loop-Consistent e store now mint ts (if b then p else inserted e store now mint t p) v.1
        (write_step-Consistent e store now mint t p b refl v.0 c)

  is_deleted_same_key :
      (dups : List ℕ) (i : ℕ) (deletes : List TupleKeyWithoutCondition) (r r' : TupleRecord C)
      → WellFormed r
      → WellFormed r'
      → key_of r ≡ key_of r'
      → is_deleted dups i deletes r ≡ is_deleted dups i deletes r'
  unfolding is_deleted
  is_deleted_same_key dups i [] r r' w w' e = refl
  is_deleted_same_key dups i (k ∷ ks) r r' w w' e = rw (
    matches_same_key r r' k.object k.relation k.user w w' e,
    is_deleted_same_key dups (suc i) ks r r' w w' e,
  )

  pub delete_loop-Consistent :
      (e : C) (now : ℕ) (mint : ℕ → ℕ) (dups : List ℕ) (deletes : List TupleKeyWithoutCondition)
      (rs : List (TupleRecord C)) (cs : List (TupleChangeRec C))
      → Consistent e rs cs
      → let p =
          delete_loop e now mint
            (is_deleted dups 0 deletes)
            rs
            (record { records = []; changes = cs; minted = 0 }) in
        Consistent e p.records p.changes
  delete_loop-Consistent e now mint dups deletes rs cs c =
      let d = is_deleted dups 0 deletes in
      let start : Progress C = record { records = []; changes = cs; minted = 0 } in
      let kept = records-delete_loop e now mint d rs start in
      record {
        formed = rw kept (All-filter WellFormed (λ r. not (d r)) rs c.formed);
        distinct = rw kept (Distinct-filter (λ r. not (d r)) rs c.distinct);
        replayed =
            delete_loop-replay e now mint d rs cs c.formed
              (λ r r' m m'.
                is_deleted_same_key dups 0 deletes r r' (All-mem WellFormed rs c.formed m)
                  (All-mem WellFormed rs c.formed m'))
              c.replayed;
      }
