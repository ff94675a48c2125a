-- ===== src/Check/Response.antt =====
-- internal/graph/resolve_check_response.go, and the outcome of a handler in internal/graph/check.go.
use kengen.Base.{ℕ, Bool, false, Option, none, some}

-- `ResolveCheckResponseMetadata`, the duration in nanoseconds
pub record CheckMetadata : Type 0 where
  pub datastore_query_count : ℕ
  pub datastore_item_count : ℕ
  pub cycle_detected : Bool
  pub duration : ℕ

-- `ResolveCheckResponse`
pub record CheckResponse : Type 0 where
  pub allowed : Bool
  pub metadata : CheckMetadata

-- `ResolveCheckResponseMetadata{}`
abbrev pub empty_metadata : CheckMetadata
empty_metadata = record {
  datastore_query_count = 0;
  datastore_item_count = 0;
  cycle_detected = false;
  duration = 0;
}

-- The getters take a pointer, which is `none` where it is nil.
unfoldable pub get_metadata : Option CheckResponse → CheckMetadata
get_metadata none = empty_metadata
get_metadata (some r) = r.metadata

unfoldable pub get_cycle_detected : Option CheckResponse → Bool
unfolding get_metadata
get_cycle_detected none = false
get_cycle_detected (some r) = (get_metadata (some r)).cycle_detected

unfoldable pub get_allowed : Option CheckResponse → Bool
get_allowed none = false
get_allowed (some r) = r.allowed

unfoldable pub clone : CheckResponse → CheckResponse
unfolding get_allowed get_metadata
clone r = record { allowed = get_allowed (some r); metadata = get_metadata (some r) }

-- The errors of a reducer. `E` is the type of a handler's own errors.
pub data CheckError (E : Type 0) : Type 0 where
  handler_error : E → CheckError E
  handler_panic : CheckError E  -- `ErrPanic`
  context_done : CheckError E  -- `ctx.Err()`
  bad_operands : ℕ → CheckError E  -- `ErrUnknown` with the number of the operands

-- What a run of a handler ends in.
pub data Handled (E : Type 0) : Type 0 where
  returned : CheckResponse → Handled E
  returned_error : E → Handled E
  panicked : Handled E

-- `checkOutcome`: a handler that returns no error returns a response.
pub data CheckOutcome (E : Type 0) : Type 0 where
  responded : CheckResponse → CheckOutcome E
  failed : CheckError E → CheckOutcome E

-- `runHandler`
unfoldable pub run_handler : {E : Type 0} → Handled E → CheckOutcome E
run_handler (returned r) = responded r
run_handler (returned_error e) = failed (handler_error e)
run_handler panicked = failed handler_panic
