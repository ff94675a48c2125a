-- ===== src/Storage/Iterators/Merged.antt =====
-- internal/iterator/merge.go: `MergedIterator`.
use kengen.Base.{Bool, true, false, not, ◌&&◌, Option, none, some, if◌then◌else◌}
use kengen.Storage.Iterators.Ops.{Next, item, done, fault, IteratorOps}

-- The sign of `compareFn`.
pub data Sign : Type 0 where
  less equal greater : Sign

-- `MergedIterator`
pub record Merged (I J T : Type 0) : Type 0 where
  pub iter1 : I
  pub iter2 : J
  pub current1 : T
  pub current2 : T
  pub has_next1 : Bool
  pub has_next2 : Bool
  pub initialized : Bool

-- `Merge`, with the zero value of the type
unfoldable pub merge : {I J T : Type 0} → T → I → J → Merged I J T
merge zero_value it1 it2 = record {
  iter1 = it1;
  iter2 = it2;
  current1 = zero_value;
  current2 = zero_value;
  has_next1 = false;
  has_next2 = false;
  initialized = false;
}

-- A step that may fail, then the next one.
unfoldable pub and_then : {E A : Type 0} → Option E × A → (A → Option E × A) → Option E × A
and_then r f = elim r.0 [ none ↦ f r.1 | some e ↦ (some e, r.1) ]

-- A value that is returned beside an error is left out.
unfoldable pub give : {T E A : Type 0} → T → Option E × A → Next T E × A
give x r = elim r.0 [ none ↦ (item x, r.1) | some e ↦ (fault e, r.1) ]

module _ {I J T E : Type 0} (ops1 : IteratorOps I T E) (ops2 : IteratorOps J T E) where
  -- A read of the first iterator: the error that is not `ErrIteratorDone`, and the state.
  unfoldable pub advance1 : Option E → Merged I J T → Option E × Merged I J T
  advance1 ctx m =
      let r : Next T E × I = ops1.next ctx m.iter1 in
      elim r.0 [
        | item x ↦ (none, record m { iter1 = r.1; current1 = x })
        | done ↦ (none, record m { iter1 = r.1; has_next1 = false })
        | fault e ↦ (some e, record m { iter1 = r.1 })
      ]

  unfoldable pub advance2 : Option E → Merged I J T → Option E × Merged I J T
  advance2 ctx m =
      let r : Next T E × J = ops2.next ctx m.iter2 in
      elim r.0 [
        | item x ↦ (none, record m { iter2 = r.1; current2 = x })
        | done ↦ (none, record m { iter2 = r.1; has_next2 = false })
        | fault e ↦ (some e, record m { iter2 = r.1 })
      ]

  -- The first read of each: `has_next` is set unless the iterator is done, and left unset by an error.
  unfoldable pub read_first1 : Option E → Merged I J T → Option E × Merged I J T
  read_first1 ctx m =
      let r : Next T E × I = ops1.next ctx m.iter1 in
      elim r.0 [
        | item x ↦ (none, record m { iter1 = r.1; current1 = x; has_next1 = true })
        | done ↦ (none, record m { iter1 = r.1; has_next1 = false })
        | fault e ↦ (some e, record m { iter1 = r.1 })
      ]

  unfoldable pub read_first2 : Option E → Merged I J T → Option E × Merged I J T
  read_first2 ctx m =
      let r : Next T E × J = ops2.next ctx m.iter2 in
      elim r.0 [
        | item x ↦ (none, record m { iter2 = r.1; current2 = x; has_next2 = true })
        | done ↦ (none, record m { iter2 = r.1; has_next2 = false })
        | fault e ↦ (some e, record m { iter2 = r.1 })
      ]

  -- `initialize`
  unfoldable pub initialize : Option E → Merged I J T → Option E × Merged I J T
  unfolding read_first1 read_first2 and_then
  initialize ctx m =
      if m.initialized
      then (none, m)
      else and_then (read_first1 ctx (record m { initialized = true })) (read_first2 ctx)

  -- `Next` behind `initialize`: `returnFromIter1` gives the first current value, `returnFromIter2` the second.
  unfoldable pub merged_step : (T → T → Sign) → Option E → Merged I J T → Next T E × Merged I J T
  unfolding advance1 advance2 and_then give
  merged_step compare ctx m =
      if not m.has_next1 && not m.has_next2
      then (done, m)
      else if not m.has_next1
      then give m.current2 (advance2 ctx m)
      else if not m.has_next2
      then give m.current1 (advance1 ctx m)
      else elim (compare m.current1 m.current2) [
        | less ↦ give m.current1 (advance1 ctx m)
        | greater ↦ give m.current2 (advance2 ctx m)
        | equal ↦ give m.current1 (and_then (advance1 ctx m) (advance2 ctx))
      ]

  unfoldable pub after_initialize :
      (T → T → Sign) → Option E → Option E × Merged I J T → Next T E × Merged I J T
  unfolding merged_step
  after_initialize compare ctx r = elim r.0 [
    | none ↦ merged_step compare ctx r.1
    | some e ↦ (fault e, r.1)
  ]

  -- `MergedIterator.Next`
  unfoldable pub merged_next : (T → T → Sign) → Option E → Merged I J T → Next T E × Merged I J T
  unfolding initialize after_initialize
  merged_next compare ctx m = after_initialize compare ctx (initialize ctx m)

  -- `MergedIterator`, `not_supported` is `ErrHeadNotSupportedMergedIterator`
  unfoldable pub merged_ops : E → (T → T → Sign) → IteratorOps (Merged I J T) T E
  unfolding merged_next
  merged_ops not_supported compare = record {
    next = merged_next compare;
    head = λ ctx m. (fault not_supported, m);
    stop = λ m. record m { iter1 = ops1.stop m.iter1; iter2 = ops2.stop m.iter2 };
    is_ordered = λ m. ops1.is_ordered m.iter1 && ops2.is_ordered m.iter2;
  }
