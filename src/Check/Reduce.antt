-- ===== src/Check/Reduce.antt =====
-- internal/graph/check.go: the reducers `union` and `intersection`.
-- The goroutines and the pool are the order in which the loop's `select` receives: a list of `Selected`, an entry
-- for each round. `none` is a loop that still waits for its next receive.
use kengen.Base.{
  ℕ, zero, suc, Bool, true, false, not, ◌||◌, Option, none, some, List, [], ◌∷◌, ltb, if◌then◌else◌,
}
use kengen.Check.Response.{
  CheckResponse, CheckMetadata, empty_metadata, get_cycle_detected, CheckError, context_done,
  bad_operands, CheckOutcome, responded, failed,
}

-- What one `select` of the loop receives: the end of the context, an outcome, or that the channel is closed.
pub data Selected (E : Type 0) : Type 0 where
  cancelled closed : Selected E
  arrived : CheckOutcome E → Selected E

-- What a reducer returns.
pub data Reduced (E : Type 0) : Type 0 where
  answer : CheckResponse → Reduced E
  error : CheckError E → Reduced E

-- `&ResolveCheckResponse{Allowed: b}`
abbrev pub plain_response : Bool → CheckResponse
plain_response b = record { allowed = b; metadata = empty_metadata }

abbrev pub set_cycle : Bool → CheckResponse → CheckResponse
set_cycle c r =
    let m : CheckMetadata = r.metadata in record r { metadata = record m { cycle_detected = c } }

module _ {E : Type 0} where
  -- The end of both loops: the error kept, if any, before the result.
  unfoldable pub conclude : CheckResponse → Option (CheckError E) → Reduced E
  conclude result none = answer result
  conclude result (some e) = error e

  -- The rounds left, the receives, `finalResult` and `finalErr`.
  unfoldable pub union_loop :
      ℕ → List (Selected E) → CheckResponse → Option (CheckError E) → Option (Reduced E)
  unfolding conclude get_cycle_detected
  union_loop zero es result final = some (conclude result final)
  union_loop (suc n) [] result final = none
  union_loop (suc n) (cancelled ∷ es) result final = some (error context_done)
  union_loop (suc n) (closed ∷ es) result final = union_loop n es result final
  union_loop (suc n) (arrived (failed e) ∷ es) result final = union_loop n es result (some e)
  union_loop (suc n) (arrived (responded r) ∷ es) result final =
      let result' = if get_cycle_detected (some r) then set_cycle true result else result in
      let rest = union_loop n es result' final in if r.allowed then some (answer r) else rest

  -- `union`: whether the context is already done, and the number of the handlers.
  unfoldable pub union : Bool → ℕ → List (Selected E) → Option (Reduced E)
  unfolding union_loop
  union true n es = some (error context_done)
  union false n es = union_loop n es (plain_response false) none

  -- `finalErr` keeps the first error.
  unfoldable pub first_error : Option (CheckError E) → CheckError E → Option (CheckError E)
  first_error none e = some e
  first_error (some e) e' = some e

  unfoldable pub intersection_loop :
      ℕ → List (Selected E) → CheckResponse → Option (CheckError E) → Option (Reduced E)
  unfolding conclude first_error get_cycle_detected
  intersection_loop zero es result final = some (conclude result final)
  intersection_loop (suc n) [] result final = none
  intersection_loop (suc n) (cancelled ∷ es) result final = some (error context_done)
  intersection_loop (suc n) (closed ∷ es) result final = intersection_loop n es result final
  intersection_loop (suc n) (arrived (failed e) ∷ es) result final =
      intersection_loop n es result (first_error final e)
  intersection_loop (suc n) (arrived (responded r) ∷ es) result final =
      let rest = intersection_loop n es result final in
      if get_cycle_detected (some r) || not r.allowed
      then some
          (answer (set_cycle (get_cycle_detected (some r)) (record result { allowed = false })))
      else rest

  -- `intersection`
  unfoldable pub intersection : Bool → ℕ → List (Selected E) → Option (Reduced E)
  unfolding intersection_loop
  intersection done n es =
      if ltb n 2
      then some (error (bad_operands n))
      else if done
      then some (error context_done)
      else intersection_loop n es (plain_response true) none
