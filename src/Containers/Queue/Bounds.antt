-- ===== src/Containers/Queue/Bounds.antt =====
-- internal/containers/mpmc/queue.go: how far the buffer grows.
use native.Mathlib.Nat.{pow-suc, one-le-pow, pow-le-pow_right, mul-le-mul_left, le-mul_of_pos_right}
use kengen.Base.{
  ℕ, suc, ◌+◌, ◌*◌, ◌^◌, ◌≤◌, ◌<◌, ◌≡◌, inl, inr, refl, sym, ap, subst, Bool, true, ◌||◌, some,
  List, [], ◌∷◌, length, ltb, leb, min, max, arith, Bool-cases,
}
use kengen.Containers.Queue.{Queue, is_power_of_two, new_queue, may_extend, size}
use kengen.Containers.Queue.Fifo.{
  Fifo, Operation, put, take_one, enlarge, shut, append_item, enlarged, fifo_put, fifo_take,
  fifo_step, queue_step, Represents,
}
use kengen.Containers.Queue.Runs.{step-Agrees, new_fifo, new_queue-Represents}

-- One extension more.
pow-min : (n e : ℕ) → 2 ^ min n e ≤ 2 ^ min (n + 1) e
pow-min n e = pow-le-pow_right (omega arith) (omega arith)

pow-min_double : (c l n e : ℕ) → n < e → c ≤ l * 2 ^ min n e → c * 2 ≤ l * 2 ^ min (n + 1) e
pow-min_double c l n e small h =
    let before : min n e ≡ n = omega arith in
    let behind : min (n + 1) e ≡ suc n = omega arith in
    let h' : c ≤ l * 2 ^ n = subst (λ z. c ≤ l * 2 ^ z) before h in
    let twice : l * 2 ^ suc n ≡ l * 2 ^ n * 2 = omega (arith, ap (λ z. l * z) (pow-suc 2 n)) in
    subst (λ z. c * 2 ≤ l * 2 ^ z) (sym behind) (omega (arith, h', twice))

le_mul-pow : (n l k : ℕ) → n ≤ l → n ≤ l * 2 ^ k
le_mul-pow n l k h = omega (arith, h, le-mul_of_pos_right l (one-le-pow k 2 (omega arith)))

module _ {T : Type 0} where
  -- The queue after the calls.
  abbrev pub after_calls : List (Operation T) → Queue T → Queue T
  after_calls [] q = q
  after_calls (op ∷ ops) q = after_calls ops (queue_step op q).1

  -- The largest argument of a `Grow` among the calls, if it is above `n`.
  abbrev pub largest : ℕ → List (Operation T) → ℕ
  largest n [] = n
  largest n (put cancelled x ∷ ops) = largest n ops
  largest n (take_one cancelled ∷ ops) = largest n ops
  largest n (enlarge m ∷ ops) = max m (largest n ops)
  largest n (shut ∷ ops) = largest n ops

  abbrev asked : Operation T → ℕ
  asked (put cancelled x) = 0
  asked (take_one cancelled) = 0
  asked (enlarge n) = n
  asked shut = 0

  largest-tail :
      (n : ℕ) (op : Operation T) (ops : List (Operation T))
      → (largest n ops ≤ largest n (op ∷ ops)) × (asked op ≤ largest n (op ∷ ops))
  largest-tail n (put cancelled x) ops = (omega arith, omega arith)
  largest-tail n (take_one cancelled) ops = (omega arith, omega arith)
  largest-tail n (enlarge m) ops = (omega arith, omega arith)
  largest-tail n shut ops = (omega arith, omega arith)

  largest_start : (n : ℕ) (ops : List (Operation T)) → n ≤ largest n ops
  largest_start n [] = omega arith
  largest_start n (op ∷ ops) = omega (arith, largest_start n ops, (largest-tail n op ops).0)

  -- The capacity has doubled at most `extended` times, and no more than the limit lets it.
  record Within (extensions limit : ℕ) (f : Fifo T) : Type 0 where
    limited : f.extensions ≡ some extensions
    bound : f.capacity ≤ limit * 2 ^ min f.extended extensions

  module _ (extensions limit : ℕ) where
    enlarged-Within :
        (n : ℕ) (f : Fifo T)
        → Within extensions limit f
        → n ≤ limit * 2 ^ min (f.extended + 1) extensions
        → Within extensions limit (enlarged n f)
    enlarged-Within n f w h = elim (Bool-cases (leb n f.capacity)) [
      | inl e ↦ rw e w
      | inr e ↦ rw e (record { limited = w.limited; bound = h })
    ]

    append_item-Within :
        (x : T) (f : Fifo T) → Within extensions limit f → Within extensions limit (append_item x f)
    append_item-Within x f w = record { limited = w.limited; bound = w.bound }

    put-Within :
        (cancelled : Bool) (x : T) (f : Fifo T)
        → Within extensions limit f
        → Within extensions limit (fifo_put cancelled x f).1
    put-Within cancelled x f w = elim (Bool-cases (f.done || cancelled)) [
      | inl e ↦ rw e w
      | inr e ↦ elim (Bool-cases (ltb (length f.items) f.capacity)) [
        | inl room ↦ rw (e, room) (append_item-Within x f w)
        | inr full ↦ elim (Bool-cases (may_extend f.extensions f.extended)) [
          | inr none_left ↦ rw (e, full, none_left) w
          | inl more ↦
              let left : ltb f.extended extensions ≡ true =
                subst (λ z. may_extend z f.extended ≡ true) w.limited more in
              rw (e, full, more)
                (append_item-Within x (enlarged (f.capacity * 2) f) (
                  enlarged-Within (f.capacity * 2) f w (
                    pow-min_double f.capacity limit f.extended extensions (ground (arith, left))
                      w.bound)))
        ]
      ]
    ]

    take-Within :
        (cancelled : Bool) (xs : List T) (f : Fifo T)
        → Within extensions limit f
        → Within extensions limit (fifo_take cancelled xs f).1
    take-Within cancelled [] f w = elim (Bool-cases (f.done || cancelled)) [
      | inl e ↦ rw e w
      | inr e ↦ rw e w
    ]
    take-Within cancelled (x ∷ xs) f w = record { limited = w.limited; bound = w.bound }

    step-Within :
        (op : Operation T) (f : Fifo T)
        → Within extensions limit f
        → asked op ≤ limit
        → Within extensions limit (fifo_step op f).1
    step-Within (put cancelled x) f w h = put-Within cancelled x f w
    step-Within (take_one cancelled) f w h = take-Within cancelled f.items f w
    step-Within (enlarge n) f w h = elim (Bool-cases (is_power_of_two n)) [
      | inl e ↦
          rw e (enlarged-Within n f w (le_mul-pow n limit (min (f.extended + 1) extensions) h))
      | inr e ↦ rw e w
    ]
    step-Within shut f w h = record { limited = w.limited; bound = w.bound }

    run-Within :
        (ops : List (Operation T)) (n : ℕ) (q : Queue T) (f : Fifo T)
        → Represents q f
        → Within extensions limit f
        → largest n ops ≤ limit
        → (size (after_calls ops q) ≤ (after_calls ops q).capacity)
          × ((after_calls ops q).capacity ≤ limit * 2 ^ extensions)
    run-Within [] n q f r w h = (omega (arith, r.holds.count, r.holds.fits), at_most)
      where
        at_most : q.capacity ≤ limit * 2 ^ extensions
        at_most = omega (
          arith,
          r.same_capacity,
          w.bound,
          mul-le-mul_left limit (
              pow-le-pow_right {n = 2} (omega arith) {i = min f.extended extensions}
                {j = extensions} (omega arith)),
        )
    run-Within (op ∷ ops) n q f r w h =
        let inside = largest-tail n op ops in
        run-Within ops n (queue_step op q).1 (fifo_step op f).1 (step-Agrees op q f r).1
          (step-Within op f w (omega (arith, inside.1, h))) (omega (arith, inside.0, h))

  -- Whatever the calls of a queue that `NewQueue` gives with a limit on the extensions, run one at a time, it never has
  -- more items than its capacity, and the capacity is at most the first one, or the largest argument of a `Grow` where
  -- that is above it, doubled as often as the limit says.
  pub size-run_bound :
      (capacity extensions : ℕ) (q : Queue T) (ops : List (Operation T))
      → new_queue capacity (some extensions) ≡ some q
      → (size (after_calls ops q) ≤ (after_calls ops q).capacity)
        × ((after_calls ops q).capacity ≤ largest capacity ops * 2 ^ extensions)
  size-run_bound capacity extensions q ops made =
      run-Within extensions (largest capacity ops) ops capacity q
        (new_fifo capacity (some extensions))
        (new_queue-Represents capacity (some extensions) q made)
        (record {
          limited = refl;
          bound =
              le_mul-pow capacity (largest capacity ops) (min 0 extensions)
                (largest_start capacity ops);
        })
        (omega arith)
