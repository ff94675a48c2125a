-- ===== src/Storage/Iterators/Conditions.antt =====
-- pkg/storage/tuple_iterators.go: `ConditionsFilteredTupleKeyIterator`.
use kengen.Base.{ℕ, zero, suc, Bool, true, false, Option, none, some, if◌then◌else◌}
use kengen.Storage.Iterators.Ops.{Next, item, done, fault, IteratorOps}

-- What a `TupleKeyConditionFilterFunc` returns.
pub data Tested (E : Type 0) : Type 0 where
  tested : Bool → Tested E
  test_error : E → Tested E

-- `ConditionsFilteredTupleKeyIterator`
pub record ConditionsFiltered (I E : Type 0) : Type 0 where
  pub iter : I
  pub last_error : Option E
  pub once_valid : Bool
  pub stopped : Bool

-- `NewConditionsFilteredTupleKeyIterator`
unfoldable pub new_conditions_filtered : {I E : Type 0} → I → ConditionsFiltered I E
new_conditions_filtered it = record {
  iter = it;
  last_error = none;
  once_valid = false;
  stopped = false;
}

module _ {I T E : Type 0} (ops : IteratorOps I T E) (test : T → Tested E) where
  -- The end of the inner iterator: `clear` is that `Next` forgets the error it returns.
  unfoldable pub conditions_end : Bool → ConditionsFiltered I E → Next T E × ConditionsFiltered I E
  conditions_end clear s = if s.once_valid then (done, s) else elim s.last_error [
    | none ↦ (done, s)
    | some e ↦ (fault e, if clear then record s { last_error = none } else s)
  ]

  -- `ConditionsFilteredTupleKeyIterator.Next`
  unfoldable pub conditions_next :
      ℕ → Option E → ConditionsFiltered I E → Option (Next T E × ConditionsFiltered I E)
  unfolding conditions_end
  conditions_next zero ctx s = none
  conditions_next (suc n) ctx s =
      let r : Next T E × I = ops.next ctx s.iter in
      let s' : ConditionsFiltered I E = record s { iter = r.1 } in
      let skip = conditions_next n ctx s' in
      elim r.0 [
        | fault e ↦ some (fault e, s')
        | done ↦ some (conditions_end true s')
        | item x ↦
            let noted : E → Option (Next T E × ConditionsFiltered I E) =
              λ e. conditions_next n ctx (record s' { last_error = some e }) in
            elim (test x) [
              | test_error e ↦ noted e
              | tested false ↦ skip
              | tested true ↦ some (item x, record s' { once_valid = true })
            ]
      ]

  -- `ConditionsFilteredTupleKeyIterator.Head`
  unfoldable pub conditions_head :
      ℕ → Option E → ConditionsFiltered I E → Option (Next T E × ConditionsFiltered I E)
  unfolding conditions_end
  conditions_head zero ctx s = none
  conditions_head (suc n) ctx s =
      let r : Next T E × I = ops.head ctx s.iter in
      let s' : ConditionsFiltered I E = record s { iter = r.1 } in
      let q : Next T E × I = ops.next ctx r.1 in
      let advance : ConditionsFiltered I E → Option (Next T E × ConditionsFiltered I E) = λ t.
        let t' : ConditionsFiltered I E = record t { iter = q.1 } in
        let rest = conditions_head n ctx t' in
        elim q.0 [ item y ↦ rest | done ↦ some (done, t') | fault e ↦ some (fault e, t') ] in
      elim r.0 [
        | fault e ↦ some (fault e, s')
        | done ↦ some (conditions_end false s')
        | item x ↦ elim (test x) [
          | test_error e ↦ advance (record s' { last_error = some e })
          | tested false ↦ advance s'
          | tested true ↦ some (item x, record s' { once_valid = true })
        ]
      ]

  -- `ConditionsFilteredTupleKeyIterator.Stop`
  unfoldable pub conditions_stop : ConditionsFiltered I E → ConditionsFiltered I E
  conditions_stop s = if s.stopped then s else record s { iter = ops.stop s.iter; stopped = true }
