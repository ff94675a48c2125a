-- ===== src/Containers/Queue.antt =====
-- internal/containers/mpmc/queue.go: the ring buffer, its operations run one at a time. `cells` is the slice as a
-- function of the index, of which those below `capacity` are used; the counters do not reach 2^63. Locks and the signal channels are left out:
-- where `Send` or `Recv` would wait, the result is `parked`.
pub mod Bits
pub mod Modulo
pub mod Holds
pub mod Fifo
pub mod Rounds
pub mod Simulation
pub mod Runs
pub mod Bounds
use Prim.Native.Nat.{bit_and}
use kengen.Base.{
  ℕ, zero, suc, ◌+◌, ◌-◌, ◌*◌, Bool, true, false, not, ◌&&◌, ◌||◌, Option, none, some, ltb, leb,
  ◌==◌, if◌then◌else◌,
}

-- A slot with no item holds the zero value.
pub record Slot (T : Type 0) : Type 0 where
  pub sequence : ℕ
  pub item : Option T

-- No limit on the extensions is a negative one.
pub record Queue (T : Type 0) : Type 0 where
  pub cells : ℕ → Slot T
  pub capacity : ℕ
  pub extensions : Option ℕ
  pub extended : ℕ
  pub done : Bool
  pub head : ℕ
  pub tail : ℕ

unfoldable pub is_power_of_two : ℕ → Bool
is_power_of_two n = ltb 0 n && (bit_and n (n - 1) == 0)

pub data Sent (T : Type 0) : Type 0 where
  sent parked refused : Queue T → Sent T
  no_result : Sent T

pub data Received (T : Type 0) : Type 0 where
  received : Option T → Queue T → Received T
  drained waiting : Queue T → Received T
  no_item : Received T

-- `extensions < 0 || extended < extensions`
abbrev pub may_extend : Option ℕ → ℕ → Bool
may_extend none extended = true
may_extend (some extensions) extended = ltb extended extensions

module _ {T : Type 0} where
  -- Each slot's sequence is its index.
  abbrev pub fresh_queue : ℕ → Option ℕ → Queue T
  fresh_queue capacity extensions = record {
    cells = λ i. record { sequence = i; item = none };
    capacity = capacity;
    extensions = extensions;
    extended = 0;
    done = false;
    head = 0;
    tail = 0;
  }

  -- `none` is `ErrInvalidCapacity`.
  unfoldable pub new_queue : ℕ → Option ℕ → Option (Queue T)
  unfolding is_power_of_two
  new_queue capacity extensions =
      if ltb capacity 2 || not (is_power_of_two capacity)
      then none
      else some (fresh_queue capacity extensions)

  abbrev pub mask : Queue T → ℕ → ℕ
  mask q value = bit_and value (q.capacity - 1)

  abbrev pub set_cell : ℕ → Slot T → (ℕ → Slot T) → ℕ → Slot T
  set_cell i slot cells j = if j == i then slot else cells j

  -- The slots of the new buffer.
  unfoldable pub moved : Queue T → ℕ → Slot T
  moved q i =
      if ltb i (q.head - q.tail)
      then record { sequence = i + 1; item = (q.cells (mask q (q.tail + i))).item }
      else record { sequence = i; item = none }

  unfoldable pub extend : ℕ → Queue T → Queue T
  unfolding moved
  extend n q = if leb n q.capacity then q else record q {
    cells = moved q;
    tail = 0;
    head = q.head - q.tail;
    extended = q.extended + 1;
    capacity = n;
  }

  -- `none` is `ErrInvalidCapacity`.
  unfoldable pub grow : ℕ → Queue T → Option (Queue T)
  unfolding is_power_of_two extend
  grow n q = if is_power_of_two n then some (extend n q) else none

  abbrev pub write_slot : T → Queue T → Queue T
  write_slot x q = record q {
    cells = set_cell (mask q q.head) (record { sequence = q.head + 1; item = some x }) q.cells;
    head = q.head + 1;
  }

  -- `Send`, a round for each unit of fuel; `cancelled` is that the context is done.
  unfoldable pub send : ℕ → Bool → T → Queue T → Sent T
  unfolding extend
  send zero cancelled x q = no_result
  send (suc fuel) cancelled x q =
      let seq = (q.cells (mask q q.head)).sequence in
      let again = send fuel cancelled x in
      if q.done || cancelled
      then refused q
      else if seq == q.head
      then sent (write_slot x q)
      else if ltb seq q.head
      then (if may_extend q.extensions q.extended
          then again (extend (q.capacity * 2) q)
          else parked q)
      else again q

  abbrev pub read_slot : Queue T → Queue T
  read_slot q = record q {
    cells =
        set_cell (mask q q.tail) (record { sequence = q.tail + q.capacity; item = none }) q.cells;
    tail = q.tail + 1;
  }

  -- `Recv`; a slot that is ahead is read again.
  unfoldable pub recv : ℕ → Bool → Queue T → Received T
  recv zero cancelled q = no_item
  recv (suc fuel) cancelled q =
      let cell = q.cells (mask q q.tail) in
      let again = recv fuel cancelled q in
      if cell.sequence == q.tail + 1
      then received cell.item (read_slot q)
      else if ltb cell.sequence (q.tail + 1)
      then (if q.done || cancelled then drained q else waiting q)
      else again

  abbrev pub close : Queue T → Queue T
  close q = record q { done = true }

  abbrev pub size : Queue T → ℕ
  size q = q.head - q.tail
