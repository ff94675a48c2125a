-- ===== src/Check/Total.antt =====
-- internal/graph/check.go: a handler has an outcome if the checks below it have.

use kengen.Base.{
  Text, ◌≡◌, ◌≢◌, refl, inl, inr, true, false, Option, none, some, List, [], ◌∷◌, ◌++◌, Bool-cases,
  Option-cases,
}
use kengen.Tuple.Key.{TupleKey, new_tuple_key}
use kengen.Tuple.Split.{split_object, is_self_defining}
use kengen.Tuple.Valid.{is_object_relation}
use kengen.Storage.Record.{Result-cases}
use kengen.Storage.Memory.Read.{read}
use kengen.Storage.Iterators.Streams.{List-cases}
use kengen.Typesystem.Model.{
  Userset, unset, this, computed_userset, tuple_to_userset, union, intersection, difference,
  Children, leaf, child, Relation,
}
use kengen.Typesystem.Lookup.{ok, get_relation}
use kengen.Typesystem.Cycles.Sound.{Checked-cases}
use kengen.Validation.Struct.{Fields}
use kengen.Check.Request.{CheckRequest, Outcome, Checker, path_exists}
use kengen.Check.Direct.{keys_of, userset_records, request_usersets}
use kengen.Check.Dispatches.{
  DispatchMsg, dispatch_error, short_circuit, dispatch_params, child_request,
  produce_userset_dispatches, produce_ttu_dispatches, process_dispatches,
}
use kengen.Check.Resolve.{
  add_outcome, tupleset_filter, computed_request, default_userset, check_direct_userset_tuples,
  direct_handlers, check_direct, check_ttu, check_rewrite, check_children, resolve_visited,
}
use kengen.Check.Outcomes.{Fair, union_of-some, intersection_of-some, consumed-some}
use kengen.Check.Excluded.{exclusion_of-some}

some-ne-none : {A : Type 0} {a : A} → some a ≢ none
some-ne-none h = cc

module _ {V : Type 0} where
  process_dispatches-some :
      (resolve : CheckRequest → Option (Outcome V)) (req : CheckRequest) (ms : List (DispatchMsg V))
      → ((object relation user : Text) → resolve (child_request req object relation user) ≢ none)
      → process_dispatches resolve req ms ≢ none
  unfolding process_dispatches
  process_dispatches-some resolve req [] below h = some-ne-none h
  process_dispatches-some resolve req (dispatch_error e ∷ ms) below h =
      elim (Option-cases (process_dispatches resolve req ms)) [
        | inl n ↦ process_dispatches-some resolve req ms below n
        | inr (os, n) ↦ some-ne-none (rw (process_dispatches, n) at h)
      ]
  process_dispatches-some resolve req (short_circuit ∷ ms) below h = some-ne-none h
  process_dispatches-some resolve req (dispatch_params object relation user ∷ ms) below h =
      elim (Option-cases (resolve (child_request req object relation user))) [
        | inl n ↦ below object relation user n
        | inr (o, n) ↦ elim (Option-cases (process_dispatches resolve req ms)) [
          | inl n' ↦ process_dispatches-some resolve req ms below n'
          | inr (os, n') ↦ some-ne-none (rw (process_dispatches, n, n') at h)
        ]
      ]

  add_outcome-none :
      (m : Option (Outcome V)) (n : Option (List (Outcome V)))
      → m ≢ none
      → n ≢ none
      → add_outcome m n ≢ none
  unfolding add_outcome
  add_outcome-none none n h k j = h refl
  add_outcome-none (some o) none h k j = k refl
  add_outcome-none (some o) (some os) h k j = some-ne-none j

module _ {D P V : Type 0} (c : Checker D P V) (fair : Fair c)
    (resolve : CheckRequest → Option (Outcome V)) (req : CheckRequest)
    (computed-some : (relation : Text) → resolve (computed_request req relation) ≢ none)
    (child-some : (object relation user : Text)
      → resolve (child_request req object relation user) ≢ none) where
  default_userset-some : default_userset c resolve req ≢ none
  unfolding default_userset
  default_userset-some = consumed-some c fair req this _ (
      process_dispatches-some resolve req
        (produce_userset_dispatches c req
          (keys_of (userset_records c req (request_usersets c req))))
        child-some)

  check_direct_userset_tuples-some : check_direct_userset_tuples c resolve req ≢ none
  unfolding check_direct_userset_tuples
  check_direct_userset_tuples-some h = elim (Bool-cases (is_object_relation req.user)) [
    | inl e ↦ default_userset-some (rw (check_direct_userset_tuples, e) at h)
    | inr e ↦ elim (Option-cases (default_userset c resolve req)) [
      | inl d ↦ default_userset-some d
      | inr (o, d) ↦
          union_of-some c fair req this (some (o ∷ [])) some-ne-none
            (rw (check_direct_userset_tuples, e, d) at h)
    ]
  ]

  check_direct-some : check_direct c resolve req ≢ none
  unfolding check_direct
  check_direct-some h = elim (List-cases (request_usersets c req)) [
    | inl e ↦
        union_of-some c fair req this (some (direct_handlers c resolve req)) some-ne-none
          (rw (check_direct, e) at h)
    | inr (ref, refs, e) ↦ elim (Option-cases (check_direct_userset_tuples c resolve req)) [
      | inl d ↦ check_direct_userset_tuples-some d
      | inr (o, d) ↦
          union_of-some c fair req this (some (direct_handlers c resolve req ++ (o ∷ [])))
            some-ne-none (rw (check_direct, e, d) at h)
    ]
  ]

  check_ttu-some : (tupleset computed : Text) → check_ttu c resolve req tupleset computed ≢ none
  unfolding check_ttu
  check_ttu-some tupleset computed h =
      elim (Result-cases (read c.datastore req.store_id (tupleset_filter req tupleset) none)) [
        | inr (x, e) ↦ some-ne-none (rw (check_ttu, e) at h)
        | inl (it, e) ↦
            consumed-some c fair req (tuple_to_userset tupleset computed) _
              (process_dispatches-some resolve req
                (produce_ttu_dispatches c req computed (keys_of it.records)) child-some)
              (rw (check_ttu, e) at h)
      ]

  mutual
    unfolding check_rewrite

    pub rewrite-some : (u : Userset) → check_rewrite c resolve req u ≢ none
    rewrite-some unset h = some-ne-none h
    rewrite-some this h = check_direct-some h
    rewrite-some (computed_userset relation) h = computed-some relation h
    rewrite-some (tuple_to_userset tupleset computed) h = check_ttu-some tupleset computed h
    rewrite-some (union us) h = union_of-some c fair req (union us) _ (children-some us) h
    rewrite-some (intersection us) h =
        intersection_of-some c fair req (intersection us) _ (children-some us) h
    rewrite-some (difference b s) h =
        exclusion_of-some c fair req (check_rewrite c resolve req b) (check_rewrite c resolve req s)
          (rewrite-some b) (rewrite-some s) h

    children-some : (us : Children) → check_children c resolve req us ≢ none
    children-some leaf h = some-ne-none h
    children-some (child u us) h =
        add_outcome-none (check_rewrite c resolve req u) (check_children c resolve req us)
          (rewrite-some u) (children-some us) h

module _ {D P V : Type 0} (c : Checker D P V) (fair : Fair c)
    (resolve : CheckRequest → Option (Outcome V)) (req : CheckRequest) where
  -- The part behind `hasCycle` has an outcome if, where the relation is defined, the checks below it have.
  pub resolve_visited-some :
      ((d : Relation)
        → get_relation c.typesys (split_object req.object).0 req.relation ≡ ok d
        → ((relation : Text) → resolve (computed_request req relation) ≢ none)
          × ((object relation user : Text)
              → resolve (child_request req object relation user) ≢ none))
      → resolve_visited c resolve req ≢ none
  unfolding resolve_visited
  resolve_visited-some below h =
      let tk : TupleKey Fields = new_tuple_key req.object req.relation req.user in
      let object_type = (split_object req.object).0 in
      elim (Bool-cases (is_self_defining tk)) [
        | inl e ↦ some-ne-none (rw (resolve_visited, e) at h)
        | inr e ↦ elim (Checked-cases (get_relation c.typesys object_type req.relation)) [
          | inl (x, g) ↦ some-ne-none (rw (resolve_visited, e, g) at h)
          | inr (d, g) ↦ elim (Option-cases (path_exists c req.user req.relation object_type)) [
            | inl p ↦ some-ne-none (rw (resolve_visited, e, g, p) at h)
            | inr (true, p) ↦
                rewrite-some c fair resolve req (below d g).0 (below d g).1 d.rewrite
                  (rw (resolve_visited, e, g, p) at h)
            | inr (false, p) ↦ some-ne-none (rw (resolve_visited, e, g, p) at h)
          ]
        ]
      ]
