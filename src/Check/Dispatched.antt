-- ===== src/Check/Dispatched.antt =====
-- internal/graph/check.go: what the handlers that ask for other checks are founded on.
use mathlib.Core.Option.{none-ne-some}
use kengen.Base.{
  ℕ, Text, ◌≡◌, sym, subst, inl, inr, Bool, true, false, ◌||◌, Option, none, some, [], ◌∷◌, ◌++◌,
  any, any-append, arith, Bool-cases, Option-cases, if◌then◌else◌,
}
use kengen.Tuple.Split.{split_object_relation, get_type, is_typed_wildcard}
use kengen.Tuple.Valid.{is_object_relation}
use kengen.Storage.Record.{Result-cases}
use kengen.Storage.Memory.Read.{read}
use kengen.Storage.Iterators.Streams.{List-cases}
use kengen.Typesystem.Model.{this, tuple_to_userset}
use kengen.Check.Request.{CheckRequest, Outcome, Checker}
use kengen.Check.Direct.{
  keys_of, userset_records, check_direct_user_tuple, check_public_assignable,
  should_check_direct_tuple, should_check_public_assignable, request_usersets,
}
use kengen.Check.Resolve.{
  tupleset_filter, default_userset, check_direct_userset_tuples, direct_handlers, check_direct,
  check_ttu, resolve_check,
}
use kengen.Check.Derivation.{Related, Grants}
use kengen.Check.Found.{given_keys-Counts}
use kengen.Check.Outcomes.{Fair, allows, union_of-one, consumed-one}
use kengen.Check.Messages.{
  process_dispatches-Succeeds, produce_userset_dispatches-from, produce_ttu_dispatches-from,
}
use kengen.Check.Grounds.{
  Refused, Holds, Given, userset_records-Found, check_direct_user_tuple-Given,
  check_public_assignable-Given, read-Counts, failed_outcome,
}

module _ {D P V : Type 0} (c : Checker D P V) where
  module _ (fair : Fair c) (n : ℕ)
      (below : (req : CheckRequest) (o : Outcome V)
        → resolve_check c n req ≡ some o
        → allows o ≡ true
        → Holds c req) where
    abbrev pub resolve : CheckRequest → Option (Outcome V)
    resolve = resolve_check c n

    default_userset-Given :
        (req : CheckRequest) (o : Outcome V)
        → default_userset c resolve req ≡ some o
        → allows o ≡ true
        → Given c req this
    unfolding default_userset
    default_userset-Given req o h k =
        let rs = userset_records c req (request_usersets c req) in
        let (os, e, some_allows) = consumed-one c fair req this _ o h k in
        let (m, j, good) = process_dispatches-Succeeds resolve req _ os e some_allows in
        let (t, given, why) = produce_userset_dispatches-from c req resolve (keys_of rs) m good j in
        let (r, n', same, counts) =
          given_keys-Counts c req.store_id req.object req.relation [] rs t
            (λ r m.
              let (a, b, u, w) = userset_records-Found c req (request_usersets c req) r m in (a, b))
            given in
        elim why [
          | inl (wild, type) ↦
              Grants.userset_of_all req.object req.relation r counts
                (subst (λ z. is_typed_wildcard (split_object_relation z.user).0 ≡ true) (sym same)
                  wild)
                (subst (λ z. get_type (split_object_relation z.user).0 ≡ get_type req.user)
                  (sym same) type)
          | inr (p, q, l) ↦ Grants.through_userset req.object req.relation r counts (
              subst
                (λ z.
                  Related c req.store_id (Refused c req.store_id) req.user
                    (split_object_relation z.user).0 (split_object_relation z.user).1)
                (sym same) (below _ p q l))
        ]

    pub check_ttu-Given :
        (req : CheckRequest) (tupleset computed : Text) (o : Outcome V)
        → check_ttu c resolve req tupleset computed ≡ some o
        → allows o ≡ true
        → Given c req (tuple_to_userset tupleset computed)
    unfolding check_ttu
    check_ttu-Given req tupleset computed o h k =
        elim (Result-cases (read c.datastore req.store_id (tupleset_filter req tupleset) none)) [
          | inr (x, e) ↦ absurd (failed_outcome (rw (check_ttu, e) at h) k)
          | inl (it, e) ↦
              let (os, e', some_allows) =
                consumed-one c fair req (tuple_to_userset tupleset computed) _ o
                  (rw (check_ttu, e) at h) k in
              let (m, j, good) = process_dispatches-Succeeds resolve req _ os e' some_allows in
              let (t, given, (p, q, l)) =
                produce_ttu_dispatches-from c req resolve (keys_of it.records) m good computed j in
              let (r, n', same, counts) =
                given_keys-Counts c req.store_id req.object tupleset [] it.records t
                  (read-Counts c req tupleset it e) given in
              Grants.through_tupleset req.object req.relation tupleset computed r counts (
                subst
                  (λ z.
                    Related c req.store_id (Refused c req.store_id) req.user
                      (split_object_relation z.user).0 computed)
                  (sym same) (below _ p q l))
        ]

    check_direct_userset_tuples-Given :
        (req : CheckRequest) (o : Outcome V)
        → check_direct_userset_tuples c resolve req ≡ some o
        → allows o ≡ true
        → Given c req this
    unfolding check_direct_userset_tuples
    check_direct_userset_tuples-Given req o h k = elim (Bool-cases (is_object_relation req.user)) [
      | inl e ↦ default_userset-Given req o (rw (check_direct_userset_tuples, e) at h) k
      | inr e ↦ elim (Option-cases (default_userset c resolve req)) [
        | inl d ↦
            let (os, j, one) =
              union_of-one c fair req this none o (rw (check_direct_userset_tuples, e, d) at h) k in
            absurd (none-ne-some _ j)
        | inr (o', d) ↦
            let (os, j, one) =
              union_of-one c fair req this (some (o' ∷ [])) o
                (rw (check_direct_userset_tuples, e, d) at h) k in
            let same : o' ∷ [] ≡ os = cc j in
            default_userset-Given req o' d
              (only o' (subst (λ z. any allows z ≡ true) (sym same) one))
      ]
    ]
      where
        only : (o : Outcome V) → any allows (o ∷ []) ≡ true → allows o ≡ true
        only o h = ground arith

    direct_handlers-Given :
        (req : CheckRequest) → any allows (direct_handlers c resolve req) ≡ true → Given c req this
    unfolding direct_handlers
    direct_handlers-Given req h = elim (Bool-cases (allows (check_direct_user_tuple c req))) [
      | inl e ↦ check_direct_user_tuple-Given c req e
      | inr e ↦ elim (Bool-cases (allows (check_public_assignable c req))) [
        | inl e' ↦ check_public_assignable-Given c req e'
        | inr e' ↦ absurd (
            handlers_allow (should_check_direct_tuple c req) (should_check_public_assignable c req)
              _ _ e e' h)
      ]
    ]
      where
        handlers_allow :
            (a b : Bool) (x y : Outcome V)
            → allows x ≡ false
            → allows y ≡ false
            → any allows ((if a then x ∷ [] else []) ++ (if b then y ∷ [] else [])) ≡ true
            → ⊥
        handlers_allow true true x y h k j = ground arith
        handlers_allow true false x y h k j = ground arith
        handlers_allow false true x y h k j = ground arith
        handlers_allow false false x y h k j = cc

    pub check_direct-Given :
        (req : CheckRequest) (o : Outcome V)
        → check_direct c resolve req ≡ some o
        → allows o ≡ true
        → Given c req this
    unfolding check_direct
    check_direct-Given req o h k = elim (List-cases (request_usersets c req)) [
      | inl e ↦
          let (os, j, one) =
            union_of-one c fair req this (some (direct_handlers c resolve req)) o
              (rw (check_direct, e) at h) k in
          let same : direct_handlers c resolve req ≡ os = cc j in
          direct_handlers-Given req (subst (λ z. any allows z ≡ true) (sym same) one)
      | inr (ref, refs, e) ↦ elim (Option-cases (check_direct_userset_tuples c resolve req)) [
        | inl d ↦
            let (os, j, one) =
              union_of-one c fair req this none o (rw (check_direct, e, d) at h) k in
            absurd (none-ne-some _ j)
        | inr (o', d) ↦
            let (os, j, one) =
              union_of-one c fair req this (some (direct_handlers c resolve req ++ (o' ∷ []))) o
                (rw (check_direct, e, d) at h) k in
            let same : direct_handlers c resolve req ++ (o' ∷ []) ≡ os = cc j in
            let split = any-append allows (direct_handlers c resolve req) (o' ∷ []) in
            elim (Bool-cases (any allows (direct_handlers c resolve req))) [
              | inl a ↦ direct_handlers-Given req a
              | inr a ↦
                  check_direct_userset_tuples-Given req o' d
                    (last_allows o' (rw (sym same, split, a) at one))
            ]
      ]
    ]
      where
        last_allows : (o : Outcome V) → (allows o || false) ≡ true → allows o ≡ true
        last_allows o h = ground arith
