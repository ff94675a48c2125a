-- ===== src/Storage/Iterators/Wrap.antt =====
-- pkg/storage/tuple_iterators.go: the iterators that wrap another one, `tupleKeyIterator` and
-- `filteredTupleKeyIterator`. An unbounded `for` takes fuel, `none` is that the fuel is out.
use kengen.Base.{ℕ, zero, suc, Bool, true, false, Option, none, some, if◌then◌else◌}
use kengen.Tuple.Key.{TupleKey}
use kengen.Storage.Record.{Tuple}
use kengen.Storage.Iterators.Ops.{Next, item, done, fault, IteratorOps}

-- An iterator and that its `once` is done.
pub record Wrapped (I : Type 0) : Type 0 where
  pub iter : I
  pub stopped : Bool

unfoldable pub wrapped_stop : {I : Type 0} → (I → I) → Wrapped I → Wrapped I
wrapped_stop stop w = if w.stopped then w else record { iter = stop w.iter; stopped = true }

unfoldable pub map_item : {T U E : Type 0} → (T → U) → Next T E → Next U E
map_item f (item x) = item (f x)
map_item f done = done
map_item f (fault e) = fault e

-- `tupleKeyIterator`
unfoldable pub tuple_key_ops :
    {I C E : Type 0} → IteratorOps I (Tuple C) E → IteratorOps (Wrapped I) (TupleKey C) E
unfolding wrapped_stop map_item
tuple_key_ops ops = record {
  next =
      λ ctx w. let r = ops.next ctx w.iter in (map_item (λ t. t.key) r.0, record w { iter = r.1 });
  head =
      λ ctx w. let r = ops.head ctx w.iter in (map_item (λ t. t.key) r.0, record w { iter = r.1 });
  stop = wrapped_stop ops.stop;
  is_ordered = λ w. ops.is_ordered w.iter;
}

-- `NewTupleKeyIteratorFromTupleIterator` and `NewFilteredTupleKeyIterator`
unfoldable pub new_wrapped : {I : Type 0} → I → Wrapped I
new_wrapped it = record { iter = it; stopped = false }

module _ {I T E : Type 0} (ops : IteratorOps I T E) (keep : T → Bool) where
  -- `filteredTupleKeyIterator.Next`
  unfoldable pub filtered_next : ℕ → Option E → I → Option (Next T E × I)
  filtered_next zero ctx it = none
  filtered_next (suc n) ctx it =
      let r : Next T E × I = ops.next ctx it in
      let rest = filtered_next n ctx r.1 in
      elim r.0 [
        | item x ↦ if keep x then some (item x, r.1) else rest
        | done ↦ some (done, r.1)
        | fault e ↦ some (fault e, r.1)
      ]

  -- `filteredTupleKeyIterator.Head`
  unfoldable pub filtered_head : ℕ → Option E → I → Option (Next T E × I)
  filtered_head zero ctx it = none
  filtered_head (suc n) ctx it =
      let r : Next T E × I = ops.head ctx it in
      let q : Next T E × I = ops.next ctx r.1 in
      let rest = filtered_head n ctx q.1 in
      let skipped : Option (Next T E × I) = elim q.0 [
        | item y ↦ rest
        | done ↦ some (done, q.1)
        | fault e ↦ some (fault e, q.1)
      ] in
      elim r.0 [
        | item x ↦ if keep x then some (item x, r.1) else skipped
        | done ↦ some (done, r.1)
        | fault e ↦ some (fault e, r.1)
      ]
