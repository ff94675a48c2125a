-- ===== src/Check/Ends.antt =====
-- internal/graph/check.go: `ResolveCheck` ends, since a dispatch is deeper and a computed relation is visited once.
use mathlib.Core.Option.{none-ne-some}
use kengen.Base.{
  ℕ, zero, suc, ◌+◌, ◌-◌, ◌*◌, ◌≤◌, ◌<◌, Text, text_eq, text_eq_refl, ◌≡◌, ◌≢◌, refl, sym, inl, inr,
  Bool, true, false, not, ◌||◌, Option, none, some, List, [], ◌∷◌, any, filter, length, Memᴰ,
  length-filter_lt, length-filter_le, ◌==◌, arith, Bool-cases,
}
use kengen.Tuple.Split.{split_object}
use kengen.Tuple.Parse.{tuple_key_to_string}
use kengen.Typesystem.Cycles.Fuel.{type_relations, names, get_relation-Memᴰ}
use kengen.Check.Request.{CheckRequest, Checker, visited_key, has_cycle, visit}
use kengen.Check.Dispatches.{child_request}
use kengen.Check.Resolve.{computed_request, resolve_check}
use kengen.Check.Outcomes.{Fair}
use kengen.Check.Total.{resolve_visited-some}

length-names :
    {A : Type 0} (rs : List (Text × A)) → length (kengen.Base.map (λ e. e.0) rs) ≡ length rs
length-names [] = refl
length-names (e ∷ rs) = omega (arith, length-names rs)

module _ {D P V : Type 0} (c : Checker D P V) where
  -- The relations of the type of the request's object.
  abbrev own_names : CheckRequest → List Text
  own_names req = names c.typesys (split_object req.object).0

  abbrev unvisited : CheckRequest → Text → Bool
  unvisited req relation =
      not (any (text_eq (tuple_key_to_string req.object relation req.user)) req.visited_paths)

  -- The count of the relations with which the object and the user have not been visited.
  abbrev left : CheckRequest → ℕ
  left req = length (filter (unvisited req) (own_names req))

  left-visit :
      (req : CheckRequest)
      → Memᴰ req.relation (own_names req)
      → has_cycle req ≡ false
      → left (visit req) < left req
  unfolding has_cycle visit visited_key
  left-visit req m h =
      length-filter_lt (unvisited req) (unvisited (visit req)) (own_names req) (λ y. ground arith) m
        (ground (arith, h))
        (ground (arith, text_eq_refl (tuple_key_to_string req.object req.relation req.user)))

  module _ (most : ℕ) (few : (t : Text) → length (type_relations c.typesys t) ≤ most) where
    left-most : (req : CheckRequest) → left req ≤ most
    left-most req = omega (
      arith,
      length-filter_le (unvisited req) (own_names req),
      length-names (type_relations c.typesys (split_object req.object).0),
      few (split_object req.object).0,
    )

    -- The rounds that are enough for a request.
    abbrev rounds : CheckRequest → ℕ
    rounds req = (c.max_resolution_depth - req.depth) * suc most + left req

    deeper :
        (max depth a b : ℕ)
        → depth < max
        → a ≤ most
        → (max - (depth + 1)) * suc most + a < (max - depth) * suc most + b
    deeper max depth a b h k =
        let e : max - depth ≡ suc (max - (depth + 1)) = omega arith in rw e (grind arith)

    ends_within :
        (fuel : ℕ) (req : CheckRequest)
        → Fair c
        → req.depth ≤ c.max_resolution_depth
        → rounds req < fuel
        → resolve_check c fuel req ≢ none
    unfolding resolve_check computed_request child_request visit
    ends_within zero req fair deep enough h = omega (arith, enough)
    ends_within (suc n) req fair deep enough h =
        elim (Bool-cases (req.depth == c.max_resolution_depth)) [
          | inl e ↦ none-ne-some _ (sym (rw (resolve_check, e) at h))
          | inr e ↦ elim (Bool-cases (has_cycle req)) [
            | inl f ↦ none-ne-some _ (sym (rw (resolve_check, e, f) at h))
            | inr f ↦
                let shallow : req.depth < c.max_resolution_depth = ground (arith, e, deep) in
                resolve_visited-some c fair (resolve_check c n) (visit req)
                  (λ d g.
                    let less =
                      left-visit req
                        (get_relation-Memᴰ c.typesys (split_object req.object).0 req.relation d g)
                        f in
                    (
                      λ relation.
                          ends_within n (computed_request (visit req) relation) fair deep
                            (omega (arith, less, enough)),
                      λ object relation user.
                          let child = child_request (visit req) object relation user in
                          ends_within n child fair (omega (arith, shallow)) (
                            omega (
                              arith,
                              enough,
                              deeper c.max_resolution_depth req.depth (left child) (left req)
                                  shallow (left-most child),
                            )),
                    ))
                  (rw (resolve_check, e, f) at h)
          ]
        ]

    -- A check whose request is at most as deep as the limit ends, whatever the datastore and the model hold: the fuel is to
    -- be above the depths that are left times one more than the relations of a type, and once more these. No type has
    -- more than `most` relations, and every outcome arrives once, in some order.
    pub resolve_check-ends :
        (fuel : ℕ) (req : CheckRequest)
        → Fair c
        → req.depth ≤ c.max_resolution_depth
        → (c.max_resolution_depth - req.depth) * suc most + most < fuel
        → resolve_check c fuel req ≢ none
    resolve_check-ends fuel req fair deep enough =
        ends_within fuel req fair deep (omega (arith, enough, left-most req))
