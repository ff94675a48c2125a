-- ===== src/Examples/Queues.antt =====
-- A queue of internal/containers/mpmc.
use kengen.Base.{ℕ, ◌*◌, ◌^◌, ◌≤◌, ◌≡◌, refl, false, some, List, [], ◌∷◌}
use kengen.Containers.Queue.{Queue, fresh_queue, new_queue, size}
use kengen.Containers.Queue.Fifo.{
  Operation, put, take_one, shut, accepted, blocked, stopped, finished, got,
}
use kengen.Containers.Queue.Bounds.{after_calls, largest, size-run_bound}
use kengen.Containers.Queue.Runs.{run_queue, run_fifo, new_fifo, run_queue-run_fifo}

abbrev two_slots : Queue ℕ
two_slots = fresh_queue 2 (some 1)

made : new_queue 2 (some 1) ≡ some two_slots
unfolding new_queue
made = refl

abbrev calls : List (Operation ℕ)
calls =
    put false 1
    ∷ put false 2
    ∷ take_one false
    ∷ put false 3
    ∷ put false 4
    ∷ put false 5
    ∷ put false 6
    ∷ take_one false
    ∷ shut
    ∷ put false 7
    ∷ take_one false
    ∷ []

run_queue-run_fifo_example : run_queue calls two_slots ≡ run_fifo calls (new_fifo 2 (some 1))
run_queue-run_fifo_example = run_queue-run_fifo 2 (some 1) two_slots calls made

size-run_bound_example :
    (size (after_calls calls two_slots) ≤ (after_calls calls two_slots).capacity)
    × ((after_calls calls two_slots).capacity ≤ largest 2 calls * 2 ^ 1)
size-run_bound_example = size-run_bound 2 1 two_slots calls made

-- The limit is reached.
capacity_after : (after_calls calls two_slots).capacity ≡ 4
unfolding kengen.Containers.Queue.Fifo.queue_step
capacity_after = refl

-- The second and third items are still there after the buffer has doubled; the sixth does not fit.
outputs :
    run_queue calls two_slots
    ≡ accepted
      ∷ accepted
      ∷ got (some 1)
      ∷ accepted
      ∷ accepted
      ∷ accepted
      ∷ blocked
      ∷ got (some 2)
      ∷ finished
      ∷ stopped
      ∷ got (some 3)
      ∷ []
unfolding kengen.Containers.Queue.Fifo.queue_step
outputs = refl
