-- ===== src/Storage/Iterators/Faults.antt =====
-- internal/iterator/merge.go: an error of the first read.
use kengen.Base.{◌≡◌, refl, true, none}
use kengen.Storage.Iterators.Ops.{Next, done, fault, IteratorOps}
use kengen.Storage.Iterators.Merged.{
  Sign, Merged, merge, and_then, read_first1, initialize, merged_step, after_initialize,
  merged_next,
}

module _ {I J T E : Type 0} (ops1 : IteratorOps I T E) (ops2 : IteratorOps J T E)
    (compare : T → T → Sign) where
  fault_state :
      (zero_value : T) (i : I) (j : J) (e : E)
      → (ops1.next none i).0 ≡ fault e
      → merged_next ops1 ops2 compare none (merge zero_value i j) ≡ (
        fault e,
        record (merge zero_value i j) { iter1 = (ops1.next none i).1; initialized = true },
      )
  unfolding merged_next after_initialize initialize and_then read_first1 merge
  fault_state zero_value i j e h = rw (initialize, read_first1, h) refl

  -- If the first iterator fails at the first read of a new merged iterator, `Next` returns the error, and the `Next`
  -- behind it returns `ErrIteratorDone`, whatever the two iterators have left.
  -- The context is not done.
  pub merged_next-fault :
      (zero_value : T) (i : I) (j : J) (e : E)
      → (ops1.next none i).0 ≡ fault e
      → let r : Next T E × Merged I J T =
          merged_next ops1 ops2 compare none (merge zero_value i j) in
        (r.0 ≡ fault e) × ((merged_next ops1 ops2 compare none r.1).0 ≡ done)
  unfolding merged_next after_initialize initialize and_then merge merged_step
  merged_next-fault zero_value i j e h = rw (fault_state zero_value i j e h) (refl, refl)
