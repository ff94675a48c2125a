-- ===== src/Check/Dispatches.antt =====
-- internal/graph/default_resolver.go: the requests that a userset or a tupleset is resolved by, and the outcome of all
-- of them. The channels are lists: each message is sent, and the context does not end.
use kengen.Base.{
  ◌+◌, Text, text_eq, Bool, true, false, not, ◌&&◌, Option, none, some, List, [], ◌∷◌, ◌++◌, filter,
  if◌then◌else◌,
}
use kengen.Tuple.Key.{TupleKey}
use kengen.Tuple.Split.{get_type, split_object_relation, is_typed_wildcard}
use kengen.Storage.Iterators.Ops.{Next, item, done, fault}
use kengen.Storage.Iterators.Answer.{holds, conditions_answer}
use kengen.Typesystem.Model.{is_schema_version_supported}
use kengen.Typesystem.Lookup.{Checked, err, relation_undefined, get_relation}
use kengen.Validation.Struct.{Fields}
use kengen.Check.Response.{CheckResponse, CheckError, responded, failed, get_cycle_detected}
use kengen.Check.Reduce.{plain_response, set_cycle}
use kengen.Check.Request.{
  CheckRequest, CheckFault, condition_error, Outcome, fault_outcome, Checker,
}
use kengen.Check.Direct.{valid_keys}

-- `dispatchMsg`
pub data DispatchMsg (V : Type 0) : Type 0 where
  dispatch_error : CheckFault V → DispatchMsg V
  short_circuit : DispatchMsg V
  dispatch_params : (object relation user : Text) → DispatchMsg V

-- `prepareChildRequest` and `dispatch`: the request for a tuple key, one deeper.
unfoldable pub child_request : CheckRequest → Text → Text → Text → CheckRequest
child_request parent object relation user = record parent {
  object = object;
  relation = relation;
  user = user;
  depth = parent.depth + 1;
}

-- The lookup of the computed relation, if its error is to skip the tuple.
abbrev pub is_undefined : {A : Type 0} → Checked A → Bool
is_undefined (err (relation_undefined t r)) = true
is_undefined _ = false

-- The messages of a tuple and those of the tuples behind it, which a short circuit cuts off.
unfoldable pub then_messages :
    {V : Type 0} → List (DispatchMsg V) → List (DispatchMsg V) → List (DispatchMsg V)
then_messages [] more = more
then_messages (short_circuit ∷ ms) more = short_circuit ∷ []
then_messages (m ∷ ms) more = m ∷ (ms ++ more)

module _ {D P V : Type 0} (c : Checker D P V) where
  -- The tuples that a filtered iterator over these keys gives.
  abbrev pub given_keys : List (TupleKey Fields) → List (TupleKey Fields)
  given_keys keys = filter (holds c.condition_met) (valid_keys c keys)

  -- The message of the error that ends the iterator, if one does.
  abbrev pub end_messages : Next (TupleKey Fields) V → List (DispatchMsg V)
  end_messages (item tk) = []
  end_messages done = []
  end_messages (fault e) = dispatch_error (condition_error e) ∷ []

  abbrev pub last_messages : List (TupleKey Fields) → List (DispatchMsg V)
  last_messages keys =
      end_messages (conditions_answer c.condition_met (valid_keys c keys) false none)

  -- The message of a tuple in `produceUsersetDispatches`.
  unfoldable pub userset_message : CheckRequest → TupleKey Fields → List (DispatchMsg V)
  unfolding get_type split_object_relation is_typed_wildcard
  userset_message req t =
      let u : Text × Text = split_object_relation t.user in
      if is_typed_wildcard u.0
        && (is_schema_version_supported c.typesys.schema_version
            && text_eq (get_type req.user) (get_type u.0))
      then short_circuit ∷ []
      else if not (text_eq u.1 [])
      then dispatch_params u.0 u.1 req.user ∷ []
      else []

  -- The loop of `produceUsersetDispatches`, which a short circuit ends.
  unfoldable pub userset_messages :
      CheckRequest → List (TupleKey Fields) → List (DispatchMsg V) → List (DispatchMsg V)
  unfolding userset_message then_messages
  userset_messages req [] last = last
  userset_messages req (t ∷ ts) last =
      let more = userset_messages req ts last in then_messages (userset_message req t) more

  -- `produceUsersetDispatches` over the iterator on these keys
  unfoldable pub produce_userset_dispatches :
      CheckRequest → List (TupleKey Fields) → List (DispatchMsg V)
  unfolding userset_messages
  produce_userset_dispatches req keys = userset_messages req (given_keys keys) (last_messages keys)

  -- The loop of `produceTTUDispatches`
  unfoldable pub ttu_messages :
      CheckRequest → Text → List (TupleKey Fields) → List (DispatchMsg V) → List (DispatchMsg V)
  unfolding get_type split_object_relation get_relation
  ttu_messages req computed [] last = last
  ttu_messages req computed (t ∷ ts) last =
      let more = ttu_messages req computed ts last in
      let user_object = (split_object_relation t.user).0 in
      if is_undefined (get_relation c.typesys (get_type user_object) computed)
      then more
      else dispatch_params user_object computed req.user ∷ more

  -- `produceTTUDispatches`
  unfoldable pub produce_ttu_dispatches :
      CheckRequest → Text → List (TupleKey Fields) → List (DispatchMsg V)
  unfolding ttu_messages
  produce_ttu_dispatches req computed keys =
      ttu_messages req computed (given_keys keys) (last_messages keys)

module _ {V : Type 0} where
  -- `processDispatches`: the outcomes, in the order of the messages. `none` is a check that has no result.
  unfoldable pub process_dispatches :
      (CheckRequest → Option (Outcome V))
      → CheckRequest
      → List (DispatchMsg V)
      → Option (List (Outcome V))
  unfolding child_request
  process_dispatches resolve req [] = some []
  process_dispatches resolve req (dispatch_error e ∷ ms) =
      elim (process_dispatches resolve req ms) [
        | none ↦ none
        | some os ↦ some (fault_outcome e ∷ os)
      ]
  process_dispatches resolve req (short_circuit ∷ ms) = some (responded (plain_response true) ∷ [])
  process_dispatches resolve req (dispatch_params object relation user ∷ ms) =
      elim (resolve (child_request req object relation user)) [
        | none ↦ none
        | some o ↦ elim (process_dispatches resolve req ms) [
          | none ↦ none
          | some os ↦ some (o ∷ os)
        ]
      ]

  -- The loop of `consumeDispatches`: the outcomes, `finalResult` and `finalErr`.
  unfoldable pub consume_loop :
      List (Outcome V) → CheckResponse → Option (CheckError (CheckFault V)) → Outcome V
  unfolding get_cycle_detected
  consume_loop [] result none = responded result
  consume_loop [] result (some e) = failed e
  consume_loop (failed e ∷ os) result final = consume_loop os result (some e)
  consume_loop (responded r ∷ os) result final =
      let result' = if get_cycle_detected (some r) then set_cycle true result else result in
      let rest = consume_loop os result' final in if r.allowed then responded r else rest

  -- `consumeDispatches`
  unfoldable pub consume_dispatches : List (Outcome V) → Outcome V
  unfolding consume_loop
  consume_dispatches os = consume_loop os (plain_response false) none
