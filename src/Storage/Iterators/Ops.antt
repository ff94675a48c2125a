-- ===== src/Storage/Iterators/Ops.antt =====
-- pkg/storage/tuple_iterators.go: the interface `Iterator`, `StaticIterator` and the combined iterator.
-- The first argument of `next` and `head` is `ctx.Err()`. The locks are left out: a call runs alone.
use kengen.Base.{Bool, true, false, Option, none, some, List, [], ◌∷◌, map, if◌then◌else◌}

-- A value, `ErrIteratorDone`, or another error.
pub data Next (T E : Type 0) : Type 0 where
  item : T → Next T E
  done : Next T E
  fault : E → Next T E

-- The methods of an iterator with the state `I`.
pub record IteratorOps (I T E : Type 0) : Type 0 where
  pub next : Option E → I → Next T E × I
  pub head : Option E → I → Next T E × I
  pub stop : I → I
  pub is_ordered : I → Bool

module _ {T E : Type 0} where
  unfoldable pub static_next : Option E → List T → Next T E × List T
  static_next (some e) items = (fault e, items)
  static_next none [] = (done, [])
  static_next none (x ∷ xs) = (item x, xs)

  unfoldable pub static_head : Option E → List T → Next T E × List T
  static_head (some e) items = (fault e, items)
  static_head none [] = (done, [])
  static_head none (x ∷ xs) = (item x, x ∷ xs)

  -- `StaticIterator`, its state is the slice
  unfoldable pub static_ops : IteratorOps (List T) T E
  unfolding static_next static_head
  static_ops = record {
    next = static_next;
    head = static_head;
    stop = λ items. [];
    is_ordered = λ items. true;
  }

-- `combinedIterator`; `stopped` is that its `once` is done
pub record Combined (I : Type 0) : Type 0 where
  pub pending : List I
  pub stopped : Bool

-- `NewCombinedIterator`: `none` is a nil iterator
unfoldable pub new_combined : {I : Type 0} → List (Option I) → Combined I
new_combined [] = record { pending = []; stopped = false }
new_combined (none ∷ iters) = new_combined iters
new_combined (some it ∷ iters) =
    let c : Combined _ = new_combined iters in record { pending = it ∷ c.pending; stopped = false }

module _ {I T E : Type 0} (ops : IteratorOps I T E) where
  -- A call that finds its first iterator done drops it and calls itself. The state of the dropped iterator is given up,
  -- and its `Stop` with it.
  unfoldable pub pending_next : Option E → List I → Next T E × List I
  pending_next ctx [] = (done, [])
  pending_next ctx (it ∷ its) =
      let rest = pending_next ctx its in
      let r : Next T E × I = ops.next ctx it in
      elim r.0 [ item x ↦ (item x, r.1 ∷ its) | done ↦ rest | fault e ↦ (fault e, r.1 ∷ its) ]

  unfoldable pub pending_head : Option E → List I → Next T E × List I
  pending_head ctx [] = (done, [])
  pending_head ctx (it ∷ its) =
      let rest = pending_head ctx its in
      let r : Next T E × I = ops.head ctx it in
      elim r.0 [ item x ↦ (item x, r.1 ∷ its) | done ↦ rest | fault e ↦ (fault e, r.1 ∷ its) ]

  unfoldable pub combined_stop : Combined I → Combined I
  combined_stop c =
      if c.stopped then c else record { pending = map ops.stop c.pending; stopped = true }

  -- `combinedIterator`
  unfoldable pub combined_ops : IteratorOps (Combined I) T E
  unfolding pending_next pending_head combined_stop
  combined_ops = record {
    next = λ ctx c. let r = pending_next ctx c.pending in (r.0, record c { pending = r.1 });
    head = λ ctx c. let r = pending_head ctx c.pending in (r.0, record c { pending = r.1 });
    stop = combined_stop;
    is_ordered = λ c. false;
  }
