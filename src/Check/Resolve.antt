-- ===== src/Check/Resolve.antt =====
-- internal/graph/check.go: `LocalChecker.ResolveCheck` with the default resolvers, where the checker is its own
-- delegate and the graph offers neither the weight-two nor the recursive resolver. No context ends.
use kengen.Base.{
  ℕ, zero, suc, Text, true, false, Option, none, some, List, [], ◌∷◌, ◌++◌, map, length, ◌==◌,
  if◌then◌else◌,
}
use kengen.Tuple.Key.{TupleKey, new_tuple_key}
use kengen.Tuple.Split.{split_object, is_self_defining}
use kengen.Tuple.Valid.{is_object_relation}
use kengen.Storage.Record.{TupleRecord, Result}
use kengen.Storage.Record
use kengen.Storage.Memory.Read.{ReadFilter, read}
use kengen.Typesystem.Model.{
  Userset, unset, this, computed_userset, tuple_to_userset, union, intersection, difference,
  Children, leaf, child,
}
use kengen.Typesystem.Lookup.{ok, err, get_relation}
use kengen.Validation.Struct.{Fields}
use kengen.Check.Response.{responded, failed}
use kengen.Check.Reduce.{Selected, arrived, Reduced, answer, error, plain_response, set_cycle}
use kengen.Check.Reduce
use kengen.Check.Exclude.{exclusion}
use kengen.Check.Request.{
  CheckRequest, CheckFault, resolution_depth_exceeded, unknown_set_operator, undefined_relation,
  path_error, datastore_error, Outcome, fault_outcome, Checker, has_cycle, visit, path_exists,
}
use kengen.Check.Direct.{
  keys_of, userset_records, check_public_assignable, check_direct_user_tuple,
  should_check_direct_tuple, should_check_public_assignable, request_usersets,
}
use kengen.Check.Dispatches.{
  produce_userset_dispatches, produce_ttu_dispatches, process_dispatches, consume_dispatches,
}

-- What a reducer returns, as the outcome of its handler.
abbrev pub as_outcome : {V : Type 0} → Option (Reduced (CheckFault V)) → Option (Outcome V)
as_outcome none = none
as_outcome (some (answer r)) = some (responded r)
as_outcome (some (error e)) = some (failed e)

-- The request of `checkComputedUserset`: no deeper.
unfoldable pub computed_request : CheckRequest → Text → CheckRequest
computed_request req relation = record req { relation = relation }

-- The outcomes of a handler and of those behind it.
unfoldable pub add_outcome :
    {V : Type 0} → Option (Outcome V) → Option (List (Outcome V)) → Option (List (Outcome V))
add_outcome none others = none
add_outcome (some o) none = none
add_outcome (some o) (some os) = some (o ∷ os)

-- What `checkTTU` reads.
abbrev pub tupleset_filter : CheckRequest → Text → ReadFilter
tupleset_filter req tupleset = record {
  object = req.object;
  relation = tupleset;
  user = [];
  conditions = [];
}

module _ {D P V : Type 0} (c : Checker D P V) where
  -- `union` and `intersection` of outcomes that arrive in the order of the checker.
  unfoldable pub union_of : CheckRequest → Userset → Option (List (Outcome V)) → Option (Outcome V)
  unfolding Reduce.union
  union_of req u none = none
  union_of req u (some os) =
      as_outcome (Reduce.union false (length os) (map arrived (c.arrival req u os)))

  unfoldable pub intersection_of :
      CheckRequest → Userset → Option (List (Outcome V)) → Option (Outcome V)
  unfolding Reduce.intersection
  intersection_of req u none = none
  intersection_of req u (some os) =
      as_outcome (Reduce.intersection false (length os) (map arrived (c.arrival req u os)))

  unfoldable pub exclusion_of :
      CheckRequest → Option (Outcome V) → Option (Outcome V) → Option (Outcome V)
  unfolding exclusion
  exclusion_of req none sub = none
  exclusion_of req (some b) none = none
  exclusion_of req (some b) (some s) = as_outcome (exclusion false 2 (c.received req b s))

  -- The outcome of the dispatched requests.
  unfoldable pub consumed : CheckRequest → Userset → Option (List (Outcome V)) → Option (Outcome V)
  unfolding consume_dispatches
  consumed req u none = none
  consumed req u (some os) = some (consume_dispatches (c.arrival req u os))

  module _ (resolve : CheckRequest → Option (Outcome V)) where
    -- `defaultUserset`
    unfoldable pub default_userset : CheckRequest → Option (Outcome V)
    unfolding consumed process_dispatches produce_userset_dispatches
    default_userset req = consumed req this (
        process_dispatches resolve req (
          produce_userset_dispatches c req
            (keys_of (userset_records c req (request_usersets c req)))))

    -- `checkDirectUsersetTuples`: the `union` of one handler, unless the user is a userset.
    unfoldable pub check_direct_userset_tuples : CheckRequest → Option (Outcome V)
    unfolding is_object_relation default_userset union_of
    check_direct_userset_tuples req =
        if is_object_relation req.user
        then default_userset req
        else union_of req this (elim (default_userset req) [ none ↦ none | some o ↦ some (o ∷ []) ])

    -- The handlers of `checkDirect` before the usersets.
    unfoldable pub direct_handlers : CheckRequest → List (Outcome V)
    unfolding should_check_direct_tuple should_check_public_assignable check_direct_user_tuple
        check_public_assignable
    direct_handlers req =
        (if should_check_direct_tuple c req then check_direct_user_tuple c req ∷ [] else [])
        ++ (if should_check_public_assignable c req then check_public_assignable c req ∷ [] else [])

    -- `checkDirect`
    unfoldable pub check_direct : CheckRequest → Option (Outcome V)
    unfolding check_direct_userset_tuples direct_handlers union_of
    check_direct req =
        let handlers = direct_handlers req in
        union_of req this (elim (request_usersets c req) [
          | [] ↦ some handlers
          | ref ∷ refs ↦ elim (check_direct_userset_tuples req) [
            | none ↦ none
            | some o ↦ some (handlers ++ (o ∷ []))
          ]
        ])

    -- `checkTTU` and `defaultTTU`
    unfoldable pub check_ttu : CheckRequest → Text → Text → Option (Outcome V)
    unfolding consumed process_dispatches produce_ttu_dispatches
    check_ttu req tupleset computed =
        elim (read c.datastore req.store_id (tupleset_filter req tupleset) none) [
          | Record.err e ↦ some (fault_outcome (datastore_error e))
          | Record.ok it ↦ consumed req (tuple_to_userset tupleset computed) (
              process_dispatches resolve req
                (produce_ttu_dispatches c req computed (keys_of it.records)))
        ]

    -- `CheckRewrite`, and `checkSetOperation` on the outcomes of the children
    unfoldable mutual
      unfolding add_outcome check_direct check_ttu union_of intersection_of exclusion_of
          computed_request

      pub check_rewrite : CheckRequest → Userset → Option (Outcome V)
      check_rewrite req unset = some (fault_outcome unknown_set_operator)
      check_rewrite req this = check_direct req
      check_rewrite req (computed_userset relation) = resolve (computed_request req relation)
      check_rewrite req (tuple_to_userset tupleset computed) = check_ttu req tupleset computed
      check_rewrite req (union us) = union_of req (union us) (check_children req us)
      check_rewrite req (intersection us) =
          intersection_of req (intersection us) (check_children req us)
      check_rewrite req (difference b s) =
          exclusion_of req (check_rewrite req b) (check_rewrite req s)

      pub check_children : CheckRequest → Children → Option (List (Outcome V))
      check_children req leaf = some []
      check_children req (child u us) = add_outcome (check_rewrite req u) (check_children req us)

  -- The part of `ResolveCheck` behind `hasCycle`.
  unfoldable pub resolve_visited :
      (CheckRequest → Option (Outcome V)) → CheckRequest → Option (Outcome V)
  unfolding split_object is_self_defining get_relation path_exists check_rewrite
  resolve_visited resolve req =
      let object_type = (split_object req.object).0 in
      let tk : TupleKey Fields = new_tuple_key req.object req.relation req.user in
      if is_self_defining tk
      then some (responded (plain_response true))
      else elim (get_relation c.typesys object_type req.relation) [
        | err e ↦ some (fault_outcome (undefined_relation req.relation object_type))
        | ok rel ↦ elim (path_exists c req.user req.relation object_type) [
          | none ↦ some (fault_outcome path_error)
          | some false ↦ some (responded (plain_response false))
          | some true ↦ check_rewrite resolve req rel.rewrite
        ]
      ]

  -- `ResolveCheck`; `none` is that the fuel is out.
  unfoldable pub resolve_check : ℕ → CheckRequest → Option (Outcome V)
  unfolding has_cycle visit resolve_visited
  resolve_check zero req = none
  resolve_check (suc n) req =
      let below = resolve_visited (resolve_check n) (visit req) in
      if req.depth == c.max_resolution_depth
      then some (fault_outcome resolution_depth_exceeded)
      else if has_cycle req
      then some (responded (set_cycle true (plain_response false)))
      else below
