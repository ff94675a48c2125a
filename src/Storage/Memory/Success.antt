-- ===== src/Storage/Memory/Success.antt =====
-- When `Write` with the default options succeeds.
use kengen.Base.{
  ℕ, Text, ◌≡◌, ◌↔◌, refl, sym, ◌∙◌, Bool, true, false, not, Option, none, some, List, [], ◌∷◌,
  arith, find, any, all, All, inl, inr, Option-cases,
}
use kengen.Tuple.Key.{TupleKey, TupleKeyWithoutCondition}
use kengen.Storage.Record.{TupleRecord, new_tuple_write_options, ok}
use kengen.Storage.Memory.Write.{TupleBackend, apply_writes, write}
use kengen.Storage.Memory.Keys.{WellFormed, ValidKey}
use kengen.Storage.Memory.Changelog.{bare}
use kengen.Storage.Memory.Distinct.{has_key, any-matches}
use kengen.Storage.Memory.Consistent.{Consistent}
use kengen.Storage.Memory.Sanitize.{hits, sanitize_deletes_error, sanitize_writes_error}

find-all :
    {A : Type 0} (p : A → Bool) (xs : List A) → find (λ x. not (p x)) xs ≡ none → all p xs ≡ true
find-all p [] h = refl
find-all p (x ∷ xs) h = ground (arith, find-all p xs)

find-not-all :
    {A : Type 0} (p : A → Bool) (xs : List A) (x : A)
    → find (λ x. not (p x)) xs ≡ some x
    → all p xs ≡ false
find-not-all p [] x h = cc
find-not-all p (y ∷ xs) x h = ground (arith, find-not-all p xs x)

module _ {C : Type 0} where
  all-hits :
      (rs : List (TupleRecord C)) (ks : List TupleKeyWithoutCondition)
      → All WellFormed rs
      → All ValidKey ks
      → all (λ k. any (hits k) rs) ks ≡ all (has_key rs) ks
  all-hits rs [] w v = refl
  all-hits rs (k ∷ ks) w v = rw (any-matches rs k w v.0, all-hits rs ks w v.1)

  all-not-hits :
      (rs : List (TupleRecord C)) (ts : List (TupleKey C))
      → All WellFormed rs
      → All (λ t. ValidKey (bare t)) ts
      → all (λ t. not (any (hits (bare t)) rs)) ts ≡ all (λ t. not (has_key rs (bare t))) ts
  all-not-hits rs [] w v = refl
  all-not-hits rs (t ∷ ts) w v = rw (any-matches rs (bare t) w v.0, all-not-hits rs ts w v.1)

  find_present :
      (rs : List (TupleRecord C)) (ts : List (TupleKey C))
      → find (λ t. any (hits (bare t)) rs) ts ≡ find (λ t. not (not (any (hits (bare t)) rs))) ts
  find_present rs [] = refl
  find_present rs (t ∷ ts) = ground (arith, find_present rs ts)

  -- With errors on, `Write` of valid keys to a consistent store succeeds exactly when every key to
  -- delete is in the store and no key to write is.
  pub write_succeeds_iff :
      (e : C) (cs : Option C → Text) (s : TupleBackend C) (store : Text)
      (deletes : List TupleKeyWithoutCondition) (writes : List (TupleKey C)) (now : ℕ)
      (mint : ℕ → ℕ)
      → All ValidKey deletes
      → All (λ t. ValidKey (bare t)) writes
      → Consistent e (s.tuples store) (s.changes store)
      → ((s' : TupleBackend C) × (write e cs s store deletes writes [] now mint ≡ ok s')) ↔ (
          (all (has_key (s.tuples store)) deletes ≡ true)
          × (all (λ t. not (has_key (s.tuples store) (bare t))) writes ≡ true))
  unfolding write new_tuple_write_options
  write_succeeds_iff e cs s store deletes writes now mint vd vw c =
      let rs = s.tuples store in
      let d = sanitize_deletes_error rs 0 deletes in
      let w = sanitize_writes_error cs rs 0 writes in
      let hd = all-hits rs deletes c.formed vd in
      let hw = all-not-hits rs writes c.formed vw in
      let p = λ (k : TupleKeyWithoutCondition). any (hits k) rs in
      let q = λ (t : TupleKey C). not (any (hits (bare t)) rs) in
      let same = find_present rs writes in
      elim (Option-cases (find (λ k. not (p k)) deletes)) [
        | inr (k, missing) ↦
            let no = find-not-all p deletes k missing in
            (λ h. let (s', x) = h in absurd (ground arith), λ h. absurd (ground arith))
        | inl none_missing ↦
            let all_there = find-all p deletes none_missing in
            elim (Option-cases (find (λ t. any (hits (bare t)) rs) writes)) [
              | inr (t, present) ↦
                  let no = find-not-all q writes t (sym same ∙ present) in
                  (λ h. let (s', x) = h in absurd (ground arith), λ h. absurd (ground arith))
              | inl none_present ↦
                  let all_new = find-all q writes (sym same ∙ none_present) in
                  (
                    λ h. (ground arith, ground arith),
                    λ h. (apply_writes e s store deletes writes now mint [], ground arith),
                  )
            ]
      ]
