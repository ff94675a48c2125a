-- ===== src/Examples/Checks.antt =====
-- The reducers of internal/graph on a few outcomes.
use mathlib.Core.List.{Permᴰ}
use kengen.Base.{ℕ, ◌≡◌, refl, true, false, some, List, [], ◌∷◌, any, ◌||◌, All, arith}
use kengen.Check.Response.{handler_error, CheckOutcome, responded, failed}
use kengen.Check.Reduce.{Selected, arrived, closed, plain_response, union, intersection}
use kengen.Check.Exclude.{exclusion}
use kengen.Check.Verdict.{
  granted, refused, broken, choose, verdict, is_failed, is_allowed, is_refusal, union-verdict,
  intersection-verdict,
}
use kengen.Check.Orders.{
  union-Perm, intersection-Perm, exclusion-verdict, exclusion_orders, base_refuses, sub_cuts,
}

abbrev yes : CheckOutcome ℕ
yes = responded (plain_response true)

abbrev fault : CheckOutcome ℕ
fault = failed (handler_error 3)

abbrev two_events : List (Selected ℕ)
two_events = arrived fault ∷ arrived yes ∷ []

abbrev two_swapped : List (Selected ℕ)
two_swapped = arrived yes ∷ arrived fault ∷ []

-- Both outcomes were dropped.
abbrev dropped : List (Selected ℕ)
dropped = closed ∷ closed ∷ []

union-verdict_example :
    verdict (union false 2 two_events)
    ≡ some (choose (any is_allowed two_events) (any is_failed two_events) granted broken refused)
union-verdict_example = union-verdict two_events refl

intersection-verdict_example :
    verdict (intersection false 2 dropped)
    ≡ some (choose (any is_refusal dropped) (any is_failed dropped) refused broken granted)
intersection-verdict_example = intersection-verdict dropped (omega arith) refl

swapped : Permᴰ two_events two_swapped
swapped = Permᴰ.swap refl refl

union_swapped : verdict (union false 2 two_events) ≡ verdict (union false 2 two_swapped)
union_swapped = union-Perm {es = two_events} {es' = two_swapped} swapped refl

intersection_swapped :
    verdict (intersection false 2 two_events) ≡ verdict (intersection false 2 two_swapped)
intersection_swapped =
    intersection-Perm {es = two_events} {es' = two_swapped} swapped (omega arith) refl

exclusion-verdict_example :
    All
      (λ es.
        verdict (exclusion false 2 es)
        ≡ some (
            choose
              (base_refuses yes || sub_cuts fault)
              (is_failed (arrived yes) || is_failed (arrived fault))
              refused
              broken
              granted))
      (exclusion_orders yes fault)
exclusion-verdict_example = exclusion-verdict yes fault
