-- ===== src/Containers/Queue/Runs.antt =====
-- internal/containers/mpmc/queue.go: a sequence of calls against the bounded list.
use kengen.Base.{
  ℕ, ◌+◌, ◌*◌, ◌≤◌, ◌<◌, ◌≡◌, inl, inr, refl, ap, subst, ◌∙◌, Bool, true, false, not, ◌||◌, Option,
  none, some, List, [], ◌∷◌, length, ltb, ◌==◌, ==_iff, arith, Bool-cases,
}
use kengen.Containers.Queue.{
  Queue, is_power_of_two, fresh_queue, new_queue, mask, extend, grow, may_extend, send, read_slot,
  recv,
}
use native.Mathlib.Nat.{mod-eq_of_lt}
use kengen.Containers.Queue.Bits.{PowerOfTwo, is_power_of_two-PowerOfTwo, PowerOfTwo-double}
use kengen.Containers.Queue.Holds.{Holds, read_slot-Holds}
use kengen.Containers.Queue.Fifo.{
  Fifo, Operation, put, take_one, enlarge, shut, Output, got, enlarged, fifo_put, fifo_take,
  fifo_step, sent_output, received_output, queue_step, Represents, Agrees,
}
use kengen.Containers.Queue.Rounds.{tail_empty, tail_item, send_room, send_full, send_refused}
use kengen.Containers.Queue.Simulation.{
  write_slot-Represents, extend-Represents, extend-open, extend-capacity, same_open, same_room,
  same_extend, enlarged-items,
}

module _ {T : Type 0} where
  put-Agrees :
      (cancelled : Bool) (x : T) (q : Queue T) (f : Fifo T)
      → Represents q f
      → Agrees (sent_output q (send 2 cancelled x q)) (fifo_put cancelled x f)
  put-Agrees cancelled x q f r = elim (Bool-cases (q.done || cancelled)) [
    | inl shut_ ↦
        rw (send_refused 1 cancelled x q shut_, same_open q f cancelled true r shut_) (refl, r)
    | inr open_ ↦ elim (Bool-cases (ltb (length f.items) q.capacity)) [
      | inl room ↦
          rw
            (
              send_room 1 cancelled x q f.items open_ r.holds (ground (arith, room)),
              same_open q f cancelled false r open_,
              same_room q f true r room,
            )
            (refl, write_slot-Represents q f x r (ground (arith, room)))
      | inr full ↦ elim (Bool-cases (may_extend q.extensions q.extended)) [
        | inr no_more ↦
            rw
              (
                send_full 1 cancelled x q f.items open_ r.holds (ground (arith, full)),
                no_more,
                same_open q f cancelled false r open_,
                same_room q f false r full,
                same_extend q f false r no_more,
              )
              (refl, r)
        | inl more ↦
            let q' = extend (q.capacity * 2) q in
            let r' : Represents q' (enlarged (f.capacity * 2) f) =
              subst (λ z. Represents q' (enlarged (z * 2) f)) r.same_capacity
                (extend-Represents (q.capacity * 2) q f r
                  (PowerOfTwo-double q.capacity r.holds.power)) in
            let f' = enlarged (f.capacity * 2) f in
            let room : length f'.items < q'.capacity = omega (
              arith,
              ap length (enlarged-items (f.capacity * 2) f),
              r.holds.fits,
              r.holds.two,
              extend-capacity (q.capacity * 2) q,
            ) in
            rw
              (
                send_full 1 cancelled x q f.items open_ r.holds (ground (arith, full)),
                more,
                send_room 0 cancelled x q' f'.items (extend-open (q.capacity * 2) cancelled q open_)
                    r'.holds room,
                same_open q f cancelled false r open_,
                same_room q f false r full,
                same_extend q f true r more,
              )
              (refl, write_slot-Represents q' f' x r' room)
      ]
    ]
  ]

  read_slot-Represents :
      (q : Queue T) (f : Fifo T) (x : T) (xs : List T)
      → Represents q f
      → Holds q (x ∷ xs)
      → Represents (read_slot q) (record f { items = xs })
  read_slot-Represents q f x xs r h = record {
    holds = read_slot-Holds q x xs h;
    same_capacity = r.same_capacity;
    same_extensions = r.same_extensions;
    same_extended = r.same_extended;
    same_done = r.same_done;
  }

  take-Agrees :
      (cancelled : Bool) (q : Queue T) (f : Fifo T) (xs : List T)
      → Represents q f
      → Holds q xs
      → Agrees (received_output q (recv 1 cancelled q)) (fifo_take cancelled xs f)
  unfolding recv
  take-Agrees cancelled q f [] r h =
      let s = tail_empty q h in
      let e : ((q.cells (mask q q.tail)).sequence == q.tail + 1) ≡ false = ground (arith, s) in
      let b : ltb (q.cells (mask q q.tail)).sequence (q.tail + 1) ≡ true = ground (arith, s) in
      elim (Bool-cases (q.done || cancelled)) [
        | inl shut_ ↦ rw (recv, e, b, shut_, same_open q f cancelled true r shut_) (refl, r)
        | inr open_ ↦ rw (recv, e, b, open_, same_open q f cancelled false r open_) (refl, r)
      ]
  take-Agrees cancelled q f (x ∷ xs) r h =
      let s = tail_item q x xs h in
      let e : ((q.cells (mask q q.tail)).sequence == q.tail + 1) ≡ true =
        (==_iff _ (q.tail + 1)).1 (ap (λ z. z.sequence) s) in
      rw (recv, e) (ap (λ z. got z.item) s, read_slot-Represents q f x xs r h)

  pub step-Agrees :
      (op : Operation T) (q : Queue T) (f : Fifo T)
      → Represents q f
      → Agrees (queue_step op q) (fifo_step op f)
  unfolding queue_step grow
  step-Agrees (put cancelled x) q f r = put-Agrees cancelled x q f r
  step-Agrees (take_one cancelled) q f r = take-Agrees cancelled q f f.items r r.holds
  step-Agrees (enlarge n) q f r = elim (Bool-cases (is_power_of_two n)) [
    | inl e ↦ rw (grow, e) (refl, extend-Represents n q f r (is_power_of_two-PowerOfTwo n e))
    | inr e ↦ rw (grow, e) (refl, r)
  ]
  step-Agrees shut q f r = (
    refl,
    record {
      holds = record {
        two = r.holds.two;
        power = r.holds.power;
        count = r.holds.count;
        fits = r.holds.fits;
        readable = r.holds.readable;
        writable = r.holds.writable;
      };
      same_capacity = r.same_capacity;
      same_extensions = r.same_extensions;
      same_extended = r.same_extended;
      same_done = refl;
    },
  )

  abbrev pub run_queue : List (Operation T) → Queue T → List (Output T)
  run_queue [] q = []
  run_queue (op ∷ ops) q = (queue_step op q).0 ∷ run_queue ops (queue_step op q).1

  abbrev pub run_fifo : List (Operation T) → Fifo T → List (Output T)
  run_fifo [] f = []
  run_fifo (op ∷ ops) f = (fifo_step op f).0 ∷ run_fifo ops (fifo_step op f).1

  run_Agrees :
      (ops : List (Operation T)) (q : Queue T) (f : Fifo T)
      → Represents q f
      → run_queue ops q ≡ run_fifo ops f
  run_Agrees [] q f r = refl
  run_Agrees (op ∷ ops) q f r =
      let (same, r') = step-Agrees op q f r in
      ap (λ o. o ∷ run_queue ops (queue_step op q).1) same
      ∙ ap (λ os. (fifo_step op f).0 ∷ os)
          (run_Agrees ops (queue_step op q).1 (fifo_step op f).1 r')

  -- The empty list of a new queue.
  abbrev pub new_fifo : ℕ → Option ℕ → Fifo T
  new_fifo capacity extensions = record {
    items = [];
    capacity = capacity;
    extensions = extensions;
    extended = 0;
    done = false;
  }

  fresh-Holds :
      (capacity : ℕ) (extensions : Option ℕ)
      → 2 ≤ capacity
      → PowerOfTwo capacity
      → Holds (fresh_queue {T = T} capacity extensions) []
  fresh-Holds capacity extensions two power = record {
    two = two;
    power = power;
    count = omega arith;
    fits = omega arith;
    readable = λ i x h. absurd (refute h);
    writable = λ i a b. mod-eq_of_lt {n = 0 + i} {m = capacity} (omega (arith, b));
  }
    where
      refute : {x : T} → ◌≡◌ {A = Option T} none (some x) → ⊥
      refute h = cc

  pub new_queue-Represents :
      (capacity : ℕ) (extensions : Option ℕ) (q : Queue T)
      → new_queue capacity extensions ≡ some q
      → Represents q (new_fifo capacity extensions)
  unfolding new_queue
  new_queue-Represents capacity extensions q h =
      elim (Bool-cases (ltb capacity 2 || not (is_power_of_two capacity))) [
        | inl bad ↦ absurd (refute (rw (new_queue, bad) at h))
        | inr good ↦
            subst (λ z. Represents z (new_fifo capacity extensions))
              (some_injective (rw (new_queue, good) at h))
              (record {
                holds =
                    fresh-Holds capacity extensions (ground (arith, good))
                      (is_power_of_two-PowerOfTwo capacity (ground (arith, good)));
                same_capacity = refl;
                same_extensions = refl;
                same_extended = refl;
                same_done = refl;
              })
      ]
    where
      refute : ◌≡◌ {A = Option (Queue T)} none (some q) → ⊥
      refute k = cc

      some_injective : {a b : Queue T} → some a ≡ some b → a ≡ b
      some_injective k = cc

  -- Any sequence of calls of a queue that `NewQueue` gives, run one at a time, has the results of the same calls of a
  -- bounded list: a send appends an item, or doubles the capacity and appends it where the list is full and an extension
  -- is left, and waits where none is; a receive takes the oldest item; after a close or in a context that is done a send
  -- is refused, and a receive ends once the list is empty; growing bypasses the limit of the extensions.
  pub run_queue-run_fifo :
      (capacity : ℕ) (extensions : Option ℕ) (q : Queue T) (ops : List (Operation T))
      → new_queue capacity extensions ≡ some q
      → run_queue ops q ≡ run_fifo ops (new_fifo capacity extensions)
  run_queue-run_fifo capacity extensions q ops h =
      run_Agrees ops q (new_fifo capacity extensions) (new_queue-Represents capacity extensions q h)
