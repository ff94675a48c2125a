-- ===== src/Check/Sound.antt =====
-- internal/graph/check.go: what an answer of `ResolveCheck` that allows is founded on.
use mathlib.Core.Option.{none-ne-some}
use kengen.Base.{
  ℕ, zero, suc, ◌≡◌, refl, sym, ap, ◌∙◌, subst, inl, inr, true, false, Option, none, some, List, [],
  ◌∷◌, any, arith, Bool-cases, Option-cases, ◌==◌, all,
}
use kengen.Tuple.Key.{TupleKey, new_tuple_key}
use kengen.Tuple.Split.{split_object, is_self_defining}
use kengen.Typesystem.Model.{
  Userset, unset, this, computed_userset, tuple_to_userset, union, intersection, difference,
  Children, leaf, child,
}
use kengen.Typesystem.Lookup.{get_relation}
use kengen.Typesystem.Cycles.Sound.{Checked-cases}
use kengen.Validation.Struct.{Fields}
use kengen.Check.Response.{CheckResponse, responded, failed}
use kengen.Check.Reduce.{arrived, plain_response, set_cycle}
use kengen.Check.Verdict.{is_failed}
use kengen.Check.Orders.{sub_cuts}
use kengen.Check.Request.{CheckRequest, Outcome, Checker, has_cycle, visit, path_exists}
use kengen.Check.Resolve.{
  add_outcome, check_rewrite, check_children, resolve_visited, resolve_check,
}
use kengen.Check.Derivation.{Related, Grants, GrantsOne, GrantsAll}
use kengen.Check.Found.{and-true}
use kengen.Check.Outcomes.{Fair, allows, union_of-one, intersection_of-all}
use kengen.Check.Excluded.{exclusion_of-base}
use kengen.Check.Grounds.{Refused, Holds, Given, failed_outcome, refused_outcome}
use kengen.Check.Dispatched.{check_direct-Given, check_ttu-Given}

module _ {D P V : Type 0} (c : Checker D P V) where
  module _ (fair : Fair c) (n : ℕ)
      (below : (req : CheckRequest) (o : Outcome V)
        → resolve_check c n req ≡ some o
        → allows o ≡ true
        → Holds c req) where
    add_outcome-some :
        (m : Option (Outcome V)) (n : Option (List (Outcome V))) (os : List (Outcome V))
        → add_outcome m n ≡ some os
        → (o : Outcome V) × (os' : List (Outcome V)) × (m ≡ some o)
          × (n ≡ some os')
          × (o ∷ os' ≡ os)
    unfolding add_outcome
    add_outcome-some none n os h = absurd (none-ne-some _ h)
    add_outcome-some (some o) none os h = absurd (none-ne-some _ h)
    add_outcome-some (some o) (some os') os h = (o, os', refl, refl, cc)

    children-some :
        (req : CheckRequest) (u : Userset) (us : Children) (os : List (Outcome V))
        → check_children c (resolve_check c n) req (child u us) ≡ some os
        → (o : Outcome V) × (os' : List (Outcome V)) × (check_rewrite c (resolve_check c n) req u
            ≡ some o)
          × (check_children c (resolve_check c n) req us ≡ some os')
          × (o ∷ os' ≡ os)
    unfolding check_rewrite
    children-some req u us os h =
        add_outcome-some (check_rewrite c (resolve_check c n) req u)
          (check_children c (resolve_check c n) req us) os h

    refused_response :
        (o : Outcome V)
        → is_failed (arrived o) ≡ false
        → sub_cuts o ≡ false
        → (r : CheckResponse) × (o ≡ responded r)
          × (r.allowed ≡ false)
          × (r.metadata.cycle_detected ≡ false)
    refused_response (failed e) h k = cc
    refused_response (responded r) h k = (r, refl, ground arith, ground arith)

    no_outcome : (os : List (Outcome V)) → some [] ≡ some os → any allows os ≡ true → ⊥
    no_outcome os h k =
        let same : [] ≡ os = cc h in false_true (subst (λ z. any allows z ≡ true) (sym same) k)
      where
        false_true : false ≡ true → ⊥
        false_true h = cc

    mutual
      unfolding check_rewrite

      rewrite-Given :
          (req : CheckRequest) (u : Userset) (o : Outcome V)
          → check_rewrite c (resolve_check c n) req u ≡ some o
          → allows o ≡ true
          → Given c req u
      rewrite-Given req unset o h k = absurd (failed_outcome h k)
      rewrite-Given req this o h k = check_direct-Given c fair n below req o h k
      rewrite-Given req (computed_userset relation) o h k =
          Grants.computed req.object req.relation relation (below _ o h k)
      rewrite-Given req (tuple_to_userset tupleset computed) o h k =
          check_ttu-Given c fair n below req tupleset computed o h k
      rewrite-Given req (union us) o h k =
          let (os, e, one) = union_of-one c fair req (union us) _ o h k in
          Grants.one_of req.object req.relation us (one-Given req us os e one)
      rewrite-Given req (intersection us) o h k =
          let (os, e, every) = intersection_of-all c fair req (intersection us) _ o h k in
          Grants.all_of req.object req.relation us (all-Given req us os e every)
      rewrite-Given req (difference b s) o h k =
          let (ob, os, e, e', good, cuts, answered) =
            exclusion_of-base c fair req (check_rewrite c (resolve_check c n) req b)
              (check_rewrite c (resolve_check c n) req s) o h k in
          let (r, same, no_access, no_cycle) = refused_response os answered cuts in
          Grants.base_of req.object req.relation b s (rewrite-Given req b ob e good)
            (n, req.depth, req.visited_paths, r, e' ∙ ap some same, no_access, no_cycle)

      one-Given :
          (req : CheckRequest) (us : Children) (os : List (Outcome V))
          → check_children c (resolve_check c n) req us ≡ some os
          → any allows os ≡ true
          → GrantsOne c req.store_id (Refused c req.store_id) req.user req.object req.relation us
      one-Given req leaf os h k = absurd (no_outcome os h k)
      one-Given req (child u us) os h k =
          let (o, os', e, e', same) = children-some req u us os h in
          let one : any allows (o ∷ os') ≡ true = subst (λ z. any allows z ≡ true) (sym same) k in
          elim (Bool-cases (allows o)) [
            | inl a ↦ GrantsOne.here req.object req.relation u us (rewrite-Given req u o e a)
            | inr a ↦
                GrantsOne.there req.object req.relation u us (one-Given req us os' e' (rw a at one))
          ]

      all-Given :
          (req : CheckRequest) (us : Children) (os : List (Outcome V))
          → check_children c (resolve_check c n) req us ≡ some os
          → all allows os ≡ true
          → GrantsAll c req.store_id (Refused c req.store_id) req.user req.object req.relation us
      all-Given req leaf os h k = GrantsAll.none_left req.object req.relation
      all-Given req (child u us) os h k =
          let (o, os', e, e', same) = children-some req u us os h in
          let every : all allows (o ∷ os') ≡ true = subst (λ z. all allows z ≡ true) (sym same) k in
          let (a, b) = and-true (allows o) (all allows os') every in
          GrantsAll.and_next req.object req.relation u us (rewrite-Given req u o e a)
            (all-Given req us os' e' b)

    resolve_visited-Holds :
        (req : CheckRequest) (o : Outcome V)
        → resolve_visited c (resolve_check c n) req ≡ some o
        → allows o ≡ true
        → Holds c req
    unfolding resolve_visited
    resolve_visited-Holds req o h k =
        let tk : TupleKey Fields = new_tuple_key req.object req.relation req.user in
        let object_type = (split_object req.object).0 in
        elim (Bool-cases (is_self_defining tk)) [
          | inl e ↦ Related.itself req.object req.relation e
          | inr e ↦ elim (Checked-cases (get_relation c.typesys object_type req.relation)) [
            | inl (x, g) ↦ absurd (failed_outcome (rw (resolve_visited, e, g) at h) k)
            | inr (d, g) ↦ elim (Option-cases (path_exists c req.user req.relation object_type)) [
              | inl p ↦ absurd (failed_outcome (rw (resolve_visited, e, g, p) at h) k)
              | inr (true, p) ↦
                  Related.by_rewrite req.object req.relation d g
                    (rewrite-Given req d.rewrite o (rw (resolve_visited, e, g, p) at h) k)
              | inr (false, p) ↦ absurd (
                  refused_outcome (plain_response false) refl (rw (resolve_visited, e, g, p) at h)
                    k)
            ]
          ]
        ]

  allowed-Holds :
      Fair c
      → (n : ℕ) (req : CheckRequest) (o : Outcome V) → resolve_check c n req ≡ some o
      → allows o ≡ true
      → Holds c req
  unfolding resolve_check has_cycle visit
  allowed-Holds fair zero req o h k = absurd (none-ne-some _ h)
  allowed-Holds fair (suc n) req o h k = elim (Bool-cases (req.depth == c.max_resolution_depth)) [
    | inl e ↦ absurd (failed_outcome (rw (resolve_check, e) at h) k)
    | inr e ↦ elim (Bool-cases (has_cycle req)) [
      | inl f ↦ absurd (
          refused_outcome (set_cycle true (plain_response false)) refl
            (rw (resolve_check, e, f) at h) k)
      | inr f ↦
          resolve_visited-Holds fair n (allowed-Holds fair n) (visit req) o
            (rw (resolve_check, e, f) at h) k
    ]
  ]

  -- An answer of `ResolveCheck` that allows has a derivation from the datastore and the model: the user is the userset
  -- that is asked for; or the relation's rewrite gives it the relation, through a tuple of the store that is valid in the
  -- model and whose condition holds (of the user, of everyone of its type, or of a userset or tupleset to which the user
  -- has the relation), through a computed relation, through one child of a union or every child of an intersection; and
  -- through the base of a difference whose subtracted rewrite the checker has resolved to a refusal without a cycle.
  -- Every outcome arrives once, in some order.
  pub resolve_check-Holds :
      (fuel : ℕ) (req : CheckRequest) (r : CheckResponse)
      → Fair c
      → resolve_check c fuel req ≡ some (responded r)
      → r.allowed ≡ true
      → Holds c req
  resolve_check-Holds fuel req r fair h k = allowed-Holds fair fuel req (responded r) h k
