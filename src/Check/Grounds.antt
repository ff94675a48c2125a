-- ===== src/Check/Grounds.antt =====
-- internal/graph/check.go: what the handlers that read the datastore are founded on.
use mathlib.Core.List.Memᴰ
use kengen.Base.{
  ℕ, Text, ◌≡◌, refl, sym, ◌∙◌, subst, ◌⊎◌, inl, inr, Bool, true, false, ◌&&◌, Option, none, some,
  List, [], Memᴰ, arith, Option-cases, find,
}
use kengen.Tuple.Key.{TupleKey}
use kengen.Tuple.Valid.{get_user_type_from_user}
use kengen.Storage.Record.{TupleRecord, Result, Result-cases}
use kengen.Storage.Record
use kengen.Storage.Memory.Match.{matches}
use kengen.Storage.Memory.Read.{
  StaticIterator, condition_allowed, is_user_set, read, read_matches, read_user_tuple,
  read_userset_tuples,
}
use kengen.Storage.Memory.Usersets.{allowed_user}
use kengen.Storage.Iterators.Ops.{Next, item, done, fault}
use kengen.Storage.Iterators.Streams.{List-cases}
use kengen.Storage.Iterators.Answer.{holds, conditions_answer, ending}
use kengen.Typesystem.Model.{Userset, this, RelationReference}
use kengen.Validation.Struct.{Fields}
use kengen.Validation.Tuples.{filter_invalid_tuples}
use kengen.Check.Response.{CheckResponse, responded}
use kengen.Check.Request.{CheckRequest, CheckFault, Outcome, fault_outcome, Checker}
use kengen.Check.Direct.{
  keys_of, valid_keys, userset_filter, everyone_reference, userset_records, check_found,
  check_direct_user_tuple, check_public_assignable,
}
use kengen.Check.Dispatches.{given_keys}
use kengen.Check.Resolve.{tupleset_filter, check_rewrite, resolve_check}
use kengen.Check.Derivation.{key_of, Related, Grants}
use kengen.Check.Found.{
  read_slice_all, read_matches-Memᴰ, find-Memᴰ, and-true, everyone-wildcard, userset_loop-Found,
  given_keys-Counts,
}
use kengen.Check.Outcomes.{allows}

module _ {D P V : Type 0} (c : Checker D P V) where
  -- The checker, asked for a rewrite, ends in a response that does not allow and was not found on a cycle.
  abbrev pub Refused : Text → Text → Text → Text → Userset → Type 0
  Refused store user object relation s =
      (n : ℕ) × (depth : ℕ) × (visited : List Text) × (r : CheckResponse) × (check_rewrite c
          (resolve_check c n)
          (record {
            store_id = store;
            object = object;
            relation = relation;
            user = user;
            depth = depth;
            visited_paths = visited;
          })
          s
        ≡ some (responded r))
      × (r.allowed ≡ false)
      × (r.metadata.cycle_detected ≡ false)

  -- The user of the request has its relation to its object.
  abbrev pub Holds : CheckRequest → Type 0
  Holds req = Related c req.store_id (Refused req.store_id) req.user req.object req.relation

  abbrev pub Given : CheckRequest → Userset → Type 0
  Given req u = Grants c req.store_id (Refused req.store_id) req.user req.object req.relation u

  -- The records of `ReadUsersetTuples` are of the store.
  pub userset_records-Found :
      (req : CheckRequest) (refs : List RelationReference) (r : TupleRecord Fields)
      → Memᴰ r (userset_records c req refs)
      → Memᴰ r (c.datastore.tuples req.store_id)
        × (matches r req.object req.relation [] ≡ true)
        × (is_user_set (get_user_type_from_user r.user) ≡ true)
        × (allowed_user (userset_filter c req refs).allowed_user_type_restrictions r ≡ true)
  unfolding read_userset_tuples
  userset_records-Found req refs r m =
      elim (userset_loop-Found (userset_filter c req refs) (c.datastore.tuples req.store_id) [] r
        m) [ inl n ↦ absurd (Memᴰ.not-nil n) | inr f ↦ f ]

  check_found-met :
      (tk : TupleKey Fields)
      → allows (check_found c tk) ≡ true
      → (filter_invalid_tuples c.parameters c.convert c.typesys tk ≡ true)
        × (holds c.condition_met tk ≡ true)
  unfolding check_found
  check_found-met tk h = ground arith

  pub check_direct_user_tuple-Given :
      (req : CheckRequest) → allows (check_direct_user_tuple c req) ≡ true → Given req this
  unfolding check_direct_user_tuple read_user_tuple
  check_direct_user_tuple-Given req h =
      let test : TupleRecord Fields → Bool =
        λ t. matches t req.object req.relation req.user && condition_allowed [] t.condition_name in
      elim (Option-cases (find test (c.datastore.tuples req.store_id))) [
        | inl e ↦ absurd (nothing (rw (check_direct_user_tuple, read_user_tuple, e) at h))
        | inr (t, e) ↦
            let (good, met) =
              check_found-met (key_of t) (rw (check_direct_user_tuple, read_user_tuple, e) at h) in
            let (m, k) = find-Memᴰ test (c.datastore.tuples req.store_id) t e in
            Grants.direct req.object req.relation t (record {
              stored = m;
              matched = (and-true (matches t req.object req.relation req.user) true k).0;
              valid = good;
              met = met;
            })
      ]
    where
      nothing : false ≡ true → ⊥
      nothing h = cc

  -- The first tuple, where the answer of the iterator is one.
  first_given :
      (keys : List (TupleKey Fields)) (tk : TupleKey Fields)
      → conditions_answer c.condition_met (valid_keys c keys) false none ≡ item tk
      → Memᴰ tk (given_keys c keys)
  first_given keys tk h = elim (List-cases (given_keys c keys)) [
    | inl e ↦ absurd (ending_no_item _ tk (rw (conditions_answer, e) at h))
    | inr (x, xs, e) ↦
        let same : x ≡ tk = cc (rw (conditions_answer, e) at h) in
        subst (Memᴰ tk) (sym e) (Memᴰ.head (sym same))
  ]
    where
      ending_no_item :
          (o : Option V) (tk : TupleKey Fields)
          → ◌≡◌ {A = Next (TupleKey Fields) V} (ending false o) (item tk)
          → ⊥
      ending_no_item none tk h = cc
      ending_no_item (some e) tk h = cc

  Next-cases :
      (x : Next (TupleKey Fields) V)
      → ((tk : TupleKey Fields) × (x ≡ item tk)) ⊎ ((x ≡ done) ⊎ ((e : V) × (x ≡ fault e)))
  Next-cases (item tk) = inl (tk, refl)
  Next-cases done = inr (inl refl)
  Next-cases (fault e) = inr (inr (e, refl))

  pub check_public_assignable-Given :
      (req : CheckRequest) → allows (check_public_assignable c req) ≡ true → Given req this
  unfolding check_public_assignable
  check_public_assignable-Given req h =
      let rs = userset_records c req (everyone_reference req) in
      let keys = keys_of rs in
      elim (Next-cases (conditions_answer c.condition_met (valid_keys c keys) false none)) [
        | inr (inl e) ↦ absurd (nothing (rw (check_public_assignable, e) at h))
        | inr (inr (x, e)) ↦ absurd (nothing (rw (check_public_assignable, e) at h))
        | inl (tk, e) ↦
            let (r, n, same, counts) =
              given_keys-Counts c req.store_id req.object req.relation [] rs tk
                (λ r m.
                  let (a, b, u, w) = userset_records-Found req (everyone_reference req) r m in
                  (a, b))
                (first_given keys tk e) in
            let (a, b, u, w) = userset_records-Found req (everyone_reference req) r n in
            let (wild, type) = everyone-wildcard c req r u w in
            Grants.everyone req.object req.relation r counts wild type
      ]
    where
      nothing : false ≡ true → ⊥
      nothing h = cc

  -- The records of a read by object and relation.
  pub read-Counts :
      (req : CheckRequest) (tupleset : Text) (it : StaticIterator Fields)
      → read c.datastore req.store_id (tupleset_filter req tupleset) none ≡ Record.ok it
      → (r : TupleRecord Fields) → Memᴰ r it.records
      → Memᴰ r (c.datastore.tuples req.store_id) × (matches r req.object tupleset [] ≡ true)
  unfolding read
  read-Counts req tupleset it h r m =
      let same : read_matches (c.datastore.tuples req.store_id) (tupleset_filter req tupleset)
          ≡ it.records =
        cc (
          sym (
            read_slice_all
              (read_matches (c.datastore.tuples req.store_id) (tupleset_filter req tupleset)))
          ∙ h) in
      read_matches-Memᴰ (c.datastore.tuples req.store_id) (tupleset_filter req tupleset) r
        (subst (Memᴰ r) (sym same) m)

module _ {V : Type 0} where
  pub failed_outcome :
      {e : CheckFault V} {o : Outcome V}
      → ◌≡◌ {A = Option (Outcome V)} (some (fault_outcome e)) (some o)
      → allows o ≡ true
      → ⊥
  failed_outcome {e} {o} h k =
      let same : fault_outcome e ≡ o = cc h in nothing (subst (λ z. allows z ≡ true) (sym same) k)
    where
      nothing : false ≡ true → ⊥
      nothing h = cc

  pub refused_outcome :
      (r : CheckResponse) {o : Outcome V}
      → r.allowed ≡ false
      → ◌≡◌ {A = Option (Outcome V)} (some (responded r)) (some o)
      → allows o ≡ true
      → ⊥
  refused_outcome r {o} f h k =
      let same : ◌≡◌ {A = Outcome V} (responded r) o = cc h in
      nothing (sym f ∙ subst (λ z. allows z ≡ true) (sym same) k)
    where
      nothing : false ≡ true → ⊥
      nothing h = cc
