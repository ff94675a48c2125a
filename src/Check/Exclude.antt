-- ===== src/Check/Exclude.antt =====
-- internal/graph/check.go: the reducer `exclusion`, with its two channels.
use kengen.Base.{
  ℕ, suc, Bool, true, false, not, ◌||◌, Option, none, some, List, [], ◌∷◌, ◌==◌, ltb, if◌then◌else◌,
}
use kengen.Check.Response.{
  CheckResponse, get_cycle_detected, get_allowed, CheckError, context_done, bad_operands,
  CheckOutcome, responded, failed,
}
use kengen.Check.Reduce.{Reduced, answer, error, plain_response, set_cycle}

-- What one `select` of the loop receives. A closed channel is set to nil, so it is received once.
pub data Received (E : Type 0) : Type 0 where
  cancelled base_closed sub_closed : Received E
  base_arrived sub_arrived : CheckOutcome E → Received E

-- The response of a base or a subtracted outcome that decides at once.
unfoldable pub refusal : CheckResponse → CheckResponse
unfolding get_cycle_detected
refusal r = set_cycle (get_cycle_detected (some r)) (plain_response false)

module _ {E : Type 0} where
  -- Behind the loop: `baseErr`, then `subErr`, then allowed.
  unfoldable pub exclusion_end : Option (CheckError E) → Option (CheckError E) → Reduced E
  exclusion_end (some e) sub = error e
  exclusion_end none (some e) = error e
  exclusion_end none none = answer (plain_response true)

  -- The receives, `resultsReceived`, `baseErr` and `subErr`.
  unfoldable pub exclusion_loop :
      List (Received E) → ℕ → Option (CheckError E) → Option (CheckError E) → Option (Reduced E)
  unfolding exclusion_end refusal get_cycle_detected get_allowed
  exclusion_loop [] n base_err sub_err =
      if ltb n 2 then none else some (exclusion_end base_err sub_err)
  exclusion_loop (cancelled ∷ es) n base_err sub_err =
      if ltb n 2 then some (error context_done) else some (exclusion_end base_err sub_err)
  exclusion_loop (base_closed ∷ es) n base_err sub_err =
      let rest = exclusion_loop es n base_err sub_err in
      if ltb n 2 then rest else some (exclusion_end base_err sub_err)
  exclusion_loop (sub_closed ∷ es) n base_err sub_err =
      let rest = exclusion_loop es n base_err sub_err in
      if ltb n 2 then rest else some (exclusion_end base_err sub_err)
  exclusion_loop (base_arrived (failed e) ∷ es) n base_err sub_err =
      let rest = exclusion_loop es (suc n) (some e) sub_err in
      if ltb n 2 then rest else some (exclusion_end base_err sub_err)
  exclusion_loop (base_arrived (responded r) ∷ es) n base_err sub_err =
      let rest = exclusion_loop es (suc n) base_err sub_err in
      if not (ltb n 2)
      then some (exclusion_end base_err sub_err)
      else if get_cycle_detected (some r) || not (get_allowed (some r))
      then some (answer (refusal r))
      else rest
  exclusion_loop (sub_arrived (failed e) ∷ es) n base_err sub_err =
      let rest = exclusion_loop es (suc n) base_err (some e) in
      if ltb n 2 then rest else some (exclusion_end base_err sub_err)
  exclusion_loop (sub_arrived (responded r) ∷ es) n base_err sub_err =
      let rest = exclusion_loop es (suc n) base_err sub_err in
      if not (ltb n 2)
      then some (exclusion_end base_err sub_err)
      else if get_cycle_detected (some r) || get_allowed (some r)
      then some (answer (refusal r))
      else rest

  -- `exclusion`
  unfoldable pub exclusion : Bool → ℕ → List (Received E) → Option (Reduced E)
  unfolding exclusion_loop
  exclusion done n es =
      if not (n == 2)
      then some (error (bad_operands n))
      else if done
      then some (error context_done)
      else exclusion_loop es 0 none none
