-- ===== src/Containers/Queue/Holds.antt =====
-- internal/containers/mpmc/queue.go: the items that a queue holds, and what each operation makes of them.
use native.Mathlib.Nat.{mod-eq_of_lt}
use kengen.Base.{
  ℕ, zero, suc, ◌+◌, ◌-◌, ◌%◌, ◌≤◌, ◌<◌, ◌≡◌, ◌≢◌, ◌⊎◌, inl, inr, refl, sym, ap, ◌∙◌, true, false,
  Option, none, some, List, [], ◌∷◌, ◌++◌, length, length-append, get_elem?, ltb, leb, ◌==◌, ==_iff,
  arith, Bool-cases,
}
use kengen.Containers.Queue.{Slot, Queue, mask, set_cell, moved, extend, write_slot, read_slot}
use kengen.Containers.Queue.Bits.{PowerOfTwo, mask_remainder}
use kengen.Containers.Queue.Modulo.{mod-injective, mod-add_self}

module _ {T : Type 0} where
  get_elem?-lt : (xs : List T) (i : ℕ) {x : T} → get_elem? xs i ≡ some x → i < length xs
  get_elem?-lt [] i h = absurd (refute h)
    where
      refute : {x : T} → ◌≡◌ {A = Option T} none (some x) → ⊥
      refute h = cc
  get_elem?-lt (y ∷ xs) zero h = omega arith
  get_elem?-lt (y ∷ xs) (suc i) h = omega (arith, get_elem?-lt xs i h)

  get_elem?-snoc :
      (xs : List T) (y : T) (i : ℕ) {x : T}
      → get_elem? (xs ++ (y ∷ [])) i ≡ some x
      → (get_elem? xs i ≡ some x) ⊎ (i ≡ length xs) × (some y ≡ some x)
  get_elem?-snoc [] y zero h = inr (refl, h)
  get_elem?-snoc [] y (suc i) h = inl h
  get_elem?-snoc (z ∷ xs) y zero h = inl h
  get_elem?-snoc (z ∷ xs) y (suc i) h = elim (get_elem?-snoc xs y i h) [
    | inl e ↦ inl e
    | inr (e, k) ↦ inr (ap suc e, k)
  ]

  set_cell_same :
      (i : ℕ) (slot : Slot T) (cells : ℕ → Slot T) (j : ℕ) → j ≡ i → set_cell i slot cells j ≡ slot
  set_cell_same i slot cells j e = let h : (j == i) ≡ true = (==_iff j i).1 e in rw h refl

  set_cell_other :
      (i : ℕ) (slot : Slot T) (cells : ℕ → Slot T) (j : ℕ)
      → j ≢ i
      → set_cell i slot cells j ≡ cells j
  set_cell_other i slot cells j ne = elim (Bool-cases (j == i)) [
    | inl e ↦ absurd (ne ((==_iff j i).0 e))
    | inr e ↦ rw e refl
  ]

  -- The slot of the `i`-th item from the tail.
  abbrev pub slot_at : Queue T → ℕ → Slot T
  slot_at q i = q.cells ((q.tail + i) % q.capacity)

  -- The queue holds the items `xs`: its capacity is a power of two above 1; its counters are apart by their number, which the capacity is not below; the slots
  -- from the tail on are readable and hold them, and the others are writable.
  pub record Holds (q : Queue T) (xs : List T) : Type 0 where
    pub two : 2 ≤ q.capacity
    pub power : PowerOfTwo q.capacity
    pub count : q.head ≡ q.tail + length xs
    pub fits : length xs ≤ q.capacity
    pub readable :
        (i : ℕ) (x : T)
        → get_elem? xs i ≡ some x
        → slot_at q i ≡ record { sequence = q.tail + i + 1; item = some x }
    pub writable : (i : ℕ) → length xs ≤ i → i < q.capacity → (slot_at q i).sequence ≡ q.tail + i

  pub mask-remainder :
      (q : Queue T) (xs : List T) → Holds q xs → (v : ℕ) → mask q v ≡ v % q.capacity
  mask-remainder q xs h v = mask_remainder q.capacity v h.power

  pub write_slot-Holds :
      (q : Queue T) (xs : List T) (x : T)
      → Holds q xs
      → length xs < q.capacity
      → Holds (write_slot x q) (xs ++ (x ∷ []))
  write_slot-Holds q xs x h room = record {
    two = h.two;
    power = h.power;
    count = omega (arith, h.count, length-append xs (x ∷ []));
    fits = omega (arith, length-append xs (x ∷ []));
    readable = λ i y e. elim (get_elem?-snoc xs x i e) [
      | inl k ↦
          set_cell_other (mask q q.head) new q.cells ((q.tail + i) % q.capacity)
            (apart i (get_elem?-lt xs i k))
          ∙ h.readable i y k
      | inr (k, same) ↦
          set_cell_same (mask q q.head) new q.cells ((q.tail + i) % q.capacity) (here i k)
          ∙ new_slot i y k same
    ];
    writable = λ i a b.
        ap (λ s. s.sequence)
          (set_cell_other (mask q q.head) new q.cells ((q.tail + i) % q.capacity)
            (λ k. absurd (beyond i a b k)))
        ∙ h.writable i (omega (arith, a, length-append xs (x ∷ []))) b;
  }
    where
      new : Slot T
      new = record { sequence = q.head + 1; item = some x }

      here : (i : ℕ) → i ≡ length xs → (q.tail + i) % q.capacity ≡ mask q q.head
      here i k =
          ap (λ z. z % q.capacity) (omega (arith, h.count, k)) ∙ sym (mask-remainder q xs h q.head)

      apart : (i : ℕ) → i < length xs → (q.tail + i) % q.capacity ≢ mask q q.head
      apart i small e = omega (
        arith,
        small,
        mod-injective q.tail i (length xs) q.capacity (omega (arith, small, room)) room
            (e ∙ sym (here (length xs) refl)),
      )

      beyond :
          (i : ℕ)
          → length (xs ++ (x ∷ [])) ≤ i
          → i < q.capacity
          → (q.tail + i) % q.capacity ≡ mask q q.head
          → ⊥
      beyond i a b e = omega (
        arith,
        a,
        length-append xs (x ∷ []),
        mod-injective q.tail i (length xs) q.capacity b room (e ∙ sym (here (length xs) refl)),
      )

      new_slot :
          (i : ℕ) (y : T)
          → i ≡ length xs
          → some x ≡ some y
          → new ≡ record { sequence = q.tail + i + 1; item = some y }
      new_slot i y k same =
          let e : q.head + 1 ≡ q.tail + i + 1 = omega (arith, h.count, k) in
          λ j. record { sequence = e j; item = same j }

  pub read_slot-Holds :
      (q : Queue T) (x : T) (xs : List T) → Holds q (x ∷ xs) → Holds (read_slot q) xs
  read_slot-Holds q x xs h = record {
    two = h.two;
    power = h.power;
    count = omega (arith, h.count);
    fits = omega (arith, h.fits);
    readable = λ i y e.
        set_cell_other (mask q q.tail) new q.cells ((q.tail + 1 + i) % q.capacity)
          (apart i (omega (arith, get_elem?-lt xs i e, h.fits)))
        ∙ ap q.cells (shifted i)
        ∙ h.readable (suc i) y e
        ∙ ap (λ z. record { sequence = z; item = some y }) (omega arith);
    writable = λ i a b. elim (Bool-cases (suc i == q.capacity)) [
      | inl last ↦
          ap (λ s. s.sequence)
            (set_cell_same (mask q q.tail) new q.cells ((q.tail + 1 + i) % q.capacity)
              (around i ((==_iff (suc i) q.capacity).0 last)))
          ∙ wrapped i ((==_iff (suc i) q.capacity).0 last)
      | inr inner ↦
          ap (λ s. s.sequence)
            (set_cell_other (mask q q.tail) new q.cells ((q.tail + 1 + i) % q.capacity)
                (apart i (ground (arith, b, inner)))
              ∙ ap q.cells (shifted i))
          ∙ h.writable (suc i) (omega (arith, a)) (ground (arith, b, inner))
          ∙ next i
    ];
  }
    where
      new : Slot T
      new = record { sequence = q.tail + q.capacity; item = none }

      shifted : (i : ℕ) → (q.tail + 1 + i) % q.capacity ≡ (q.tail + suc i) % q.capacity
      shifted i = ap (λ z. z % q.capacity) (omega arith)

      first : (q.tail + 0) % q.capacity ≡ mask q q.tail
      first = ap (λ z. z % q.capacity) (omega arith) ∙ sym (mask-remainder q (x ∷ xs) h q.tail)

      apart : (i : ℕ) → suc i < q.capacity → (q.tail + 1 + i) % q.capacity ≢ mask q q.tail
      apart i small e = omega (
        arith,
        mod-injective q.tail (suc i) 0 q.capacity small (omega (arith, small))
            (sym (shifted i) ∙ e ∙ sym first),
      )

      around : (i : ℕ) → suc i ≡ q.capacity → (q.tail + 1 + i) % q.capacity ≡ mask q q.tail
      around i e =
          shifted i
          ∙ ap (λ z. (q.tail + z) % q.capacity) e
          ∙ mod-add_self q.tail q.capacity (omega (arith, h.two))
          ∙ sym (mask-remainder q (x ∷ xs) h q.tail)

      wrapped : (i : ℕ) → suc i ≡ q.capacity → q.tail + q.capacity ≡ q.tail + 1 + i
      wrapped i e = omega (arith, e)

      next : (i : ℕ) → q.tail + suc i ≡ q.tail + 1 + i
      next i = omega arith

  pub extend-Holds :
      (n : ℕ) (q : Queue T) (xs : List T)
      → Holds q xs
      → PowerOfTwo n
      → leb n q.capacity ≡ false
      → Holds (extend n q) xs
  unfolding extend moved
  extend-Holds n q xs h power larger =
      rw (extend, larger)
        (record {
          two = ground (arith, h.two, larger);
          power = power;
          count = omega (arith, h.count);
          fits = ground (arith, h.fits, larger);
          readable = λ i x e.
              ap (moved q) (inside i (omega (arith, get_elem?-lt xs i e, h.fits))) ∙ kept i x e;
          writable = λ i a b. ap (λ z. (moved q z).sequence) (within i b) ∙ fresh i a;
        })
    where
      from_zero : (i : ℕ) → i ≡ 0 + i
      from_zero i = omega arith

      within : (i : ℕ) → i < n → (0 + i) % n ≡ i
      within i small = let e : 0 + i ≡ i = omega arith in ap (λ z. z % n) e ∙ mod-eq_of_lt small

      inside : (i : ℕ) → i < q.capacity → (0 + i) % n ≡ i
      inside i small = within i (ground (arith, small, larger))

      kept :
          (i : ℕ) (x : T)
          → get_elem? xs i ≡ some x
          → moved q i ≡ record { sequence = 0 + i + 1; item = some x }
      kept i x e =
          let small : ltb i (q.head - q.tail) ≡ true =
            ground (arith, h.count, get_elem?-lt xs i e) in
          rw (moved, small)
            (ap (λ z. record { sequence = i + 1; item = (q.cells z).item })
                (mask-remainder q xs h (q.tail + i))
              ∙ ap (λ s. record { sequence = i + 1; item = s.item }) (h.readable i x e)
              ∙ ap (λ z. record { sequence = z + 1; item = some x }) (from_zero i))

      fresh : (i : ℕ) → length xs ≤ i → (moved q i).sequence ≡ 0 + i
      fresh i a =
          let large : ltb i (q.head - q.tail) ≡ false = ground (arith, h.count, a) in
          rw (moved, large) (from_zero i)
