-- ===== src/Check/Verdict.antt =====
-- What the reducers answer: allowed, refused or an error.
use kengen.Base.{
  ◌≤◌, ◌≡◌, refl, Bool, true, false, not, ◌||◌, Option, none, some, List, [], ◌∷◌, length, any, all,
  arith, if◌then◌else◌,
}
use kengen.Check.Response.{
  CheckResponse, CheckError, responded, failed, get_cycle_detected, get_metadata,
}
use kengen.Check.Reduce.{
  Selected, cancelled, closed, arrived, Reduced, answer, error, plain_response, set_cycle, conclude,
  union_loop, union, first_error, intersection_loop, intersection,
}

pub data Verdict : Type 0 where
  granted refused broken : Verdict

abbrev pub choose : Bool → Bool → Verdict → Verdict → Verdict → Verdict
choose a b x y z = if a then x else if b then y else z

module _ {E : Type 0} where
  abbrev pub verdict : Option (Reduced E) → Option Verdict
  verdict none = none
  verdict (some (answer r)) = some (if r.allowed then granted else refused)
  verdict (some (error e)) = some broken

  abbrev pub is_failed : Selected E → Bool
  is_failed (arrived (failed e)) = true
  is_failed _ = false

  -- An outcome that allows.
  abbrev pub is_allowed : Selected E → Bool
  is_allowed (arrived (responded r)) = r.allowed
  is_allowed _ = false

  -- An outcome that refuses an intersection: not allowed, or found on a cycle.
  abbrev pub is_refusal : Selected E → Bool
  is_refusal (arrived (responded r)) = r.metadata.cycle_detected || not r.allowed
  is_refusal _ = false

  abbrev pub is_running : Selected E → Bool
  is_running cancelled = false
  is_running _ = true

  abbrev has_error : Option (CheckError E) → Bool
  has_error none = false
  has_error (some e) = true

  union_loop-verdict :
      (es : List (Selected E)) (result : CheckResponse) (final : Option (CheckError E))
      → result.allowed ≡ false
      → all is_running es ≡ true
      → verdict (union_loop (length es) es result final)
        ≡ some (
            choose (any is_allowed es) (has_error final || any is_failed es) granted broken refused)
  unfolding union_loop conclude get_cycle_detected get_metadata
  union_loop-verdict [] result none h k = ground (arith, h)
  union_loop-verdict [] result (some e) h k = refl
  union_loop-verdict (cancelled ∷ es) result final h k = ground arith
  union_loop-verdict (closed ∷ es) result final h k = union_loop-verdict es result final h k
  union_loop-verdict (arrived (failed e) ∷ es) result final h k =
      ground (arith, union_loop-verdict es result (some e) h k)
  union_loop-verdict (arrived (responded r) ∷ es) result final h k = ground (
    arith,
    union_loop-verdict es result final h k,
    union_loop-verdict es (set_cycle true result) final h k,
  )

  intersection_loop-verdict :
      (es : List (Selected E)) (result : CheckResponse) (final : Option (CheckError E))
      → result.allowed ≡ true
      → all is_running es ≡ true
      → verdict (intersection_loop (length es) es result final)
        ≡ some (
            choose (any is_refusal es) (has_error final || any is_failed es) refused broken granted)
  unfolding intersection_loop conclude first_error get_cycle_detected get_metadata
  intersection_loop-verdict [] result none h k = ground (arith, h)
  intersection_loop-verdict [] result (some e) h k = refl
  intersection_loop-verdict (cancelled ∷ es) result final h k = ground arith
  intersection_loop-verdict (closed ∷ es) result final h k =
      intersection_loop-verdict es result final h k
  intersection_loop-verdict (arrived (failed e) ∷ es) result none h k =
      ground (arith, intersection_loop-verdict es result (some e) h k)
  intersection_loop-verdict (arrived (failed e) ∷ es) result (some e') h k =
      ground (arith, intersection_loop-verdict es result (some e') h k)
  intersection_loop-verdict (arrived (responded r) ∷ es) result final h k =
      ground (arith, intersection_loop-verdict es result final h k)

  -- A `union` whose context is not done and that receives once for each handler, never the end of the context,
  -- ends: allowed if an outcome that arrived is allowed, else with an error if one that arrived is an error, else
  -- not allowed. An outcome that was dropped (the channel was closed) counts for nothing.
  pub union-verdict :
      (es : List (Selected E))
      → all is_running es ≡ true
      → verdict (union false (length es) es)
        ≡ some (choose (any is_allowed es) (any is_failed es) granted broken refused)
  unfolding union
  union-verdict es k = union_loop-verdict es (plain_response false) none refl k

  -- An `intersection` of two handlers or more whose context is not done and that receives once for each handler,
  -- never the end of the context, ends: not allowed if an outcome that arrived is not allowed or was found on a
  -- cycle, else with an error if one that arrived is an error, else allowed. An outcome that was dropped (the
  -- channel was closed) counts for nothing, so it counts as allowed.
  pub intersection-verdict :
      (es : List (Selected E))
      → 2 ≤ length es
      → all is_running es ≡ true
      → verdict (intersection false (length es) es)
        ≡ some (choose (any is_refusal es) (any is_failed es) refused broken granted)
  unfolding intersection
  intersection-verdict es h k =
      ground (arith, intersection_loop-verdict es (plain_response true) none refl k)
