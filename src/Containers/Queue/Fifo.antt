-- ===== src/Containers/Queue/Fifo.antt =====
-- internal/containers/mpmc/queue.go: the queue against a bounded list.
use kengen.Base.{
  ℕ, ◌+◌, ◌*◌, ◌≡◌, Bool, true, ◌||◌, Option, none, some, List, [], ◌∷◌, ◌++◌, length, ltb, leb,
  if◌then◌else◌,
}
use kengen.Containers.Queue.{
  Queue, Sent, sent, parked, refused, no_result, Received, received, drained, waiting, no_item,
  is_power_of_two, grow, may_extend, send, recv, close,
}
use kengen.Containers.Queue.Holds.{Holds}

-- A list of at most `capacity` items, which doubles at most `extensions` times.
pub record Fifo (T : Type 0) : Type 0 where
  pub items : List T
  pub capacity : ℕ
  pub extensions : Option ℕ
  pub extended : ℕ
  pub done : Bool

pub data Operation (T : Type 0) : Type 0 where
  put : (cancelled : Bool) → T → Operation T
  take_one : (cancelled : Bool) → Operation T
  enlarge : ℕ → Operation T
  shut : Operation T

-- What a call gives its caller; `blocked` is that it waits.
pub data Output (T : Type 0) : Type 0 where
  accepted stopped blocked invalid_capacity finished out_of_rounds : Output T
  got : Option T → Output T

module _ {T : Type 0} where
  abbrev pub append_item : T → Fifo T → Fifo T
  append_item x f = record f { items = f.items ++ (x ∷ []) }

  abbrev pub enlarged : ℕ → Fifo T → Fifo T
  enlarged n f =
      if leb n f.capacity then f else record f { capacity = n; extended = f.extended + 1 }

  abbrev pub fifo_put : Bool → T → Fifo T → Output T × Fifo T
  fifo_put cancelled x f =
      if f.done || cancelled
      then (stopped, f)
      else if ltb (length f.items) f.capacity
      then (accepted, append_item x f)
      else if may_extend f.extensions f.extended
      then (accepted, append_item x (enlarged (f.capacity * 2) f))
      else (blocked, f)

  abbrev pub fifo_take : Bool → List T → Fifo T → Output T × Fifo T
  fifo_take cancelled [] f = if f.done || cancelled then (stopped, f) else (blocked, f)
  fifo_take cancelled (x ∷ xs) f = (got (some x), record f { items = xs })

  abbrev pub fifo_step : Operation T → Fifo T → Output T × Fifo T
  fifo_step (put cancelled x) f = fifo_put cancelled x f
  fifo_step (take_one cancelled) f = fifo_take cancelled f.items f
  fifo_step (enlarge n) f =
      if is_power_of_two n then (finished, enlarged n f) else (invalid_capacity, f)
  fifo_step shut f = (finished, record f { done = true })

  abbrev pub sent_output : Queue T → Sent T → Output T × Queue T
  sent_output q (sent q') = (accepted, q')
  sent_output q (parked q') = (blocked, q')
  sent_output q (refused q') = (stopped, q')
  sent_output q no_result = (out_of_rounds, q)

  abbrev pub received_output : Queue T → Received T → Output T × Queue T
  received_output q (received o q') = (got o, q')
  received_output q (drained q') = (stopped, q')
  received_output q (waiting q') = (blocked, q')
  received_output q no_item = (out_of_rounds, q)

  abbrev pub grown_output : Queue T → Option (Queue T) → Output T × Queue T
  grown_output q none = (invalid_capacity, q)
  grown_output q (some q') = (finished, q')

  -- A call of the queue; two rounds of `Send` are enough, and one of `Recv`.
  unfoldable pub queue_step : Operation T → Queue T → Output T × Queue T
  unfolding send recv grow
  queue_step (put cancelled x) q = sent_output q (send 2 cancelled x q)
  queue_step (take_one cancelled) q = received_output q (recv 1 cancelled q)
  queue_step (enlarge n) q = grown_output q (grow n q)
  queue_step shut q = (finished, close q)

  -- The queue stands for the list.
  pub record Represents (q : Queue T) (f : Fifo T) : Type 0 where
    pub holds : Holds q f.items
    pub same_capacity : q.capacity ≡ f.capacity
    pub same_extensions : q.extensions ≡ f.extensions
    pub same_extended : q.extended ≡ f.extended
    pub same_done : q.done ≡ f.done

  abbrev pub Agrees : Output T × Queue T → Output T × Fifo T → Type 0
  Agrees a b = (a.0 ≡ b.0) × Represents a.1 b.1
