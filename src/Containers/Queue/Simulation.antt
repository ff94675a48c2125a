-- ===== src/Containers/Queue/Simulation.antt =====
-- internal/containers/mpmc/queue.go: the steps of a call keep the queue and the list together.
use kengen.Base.{
  ℕ, ◌+◌, ◌≤◌, ◌<◌, ◌≡◌, inl, inr, refl, sym, ap, subst, ◌∙◌, Bool, true, false, ◌||◌, length, ltb,
  leb, arith, Bool-cases,
}
use kengen.Containers.Queue.{Queue, extend, may_extend, write_slot}
use kengen.Containers.Queue.Bits.{PowerOfTwo}
use kengen.Containers.Queue.Holds.{write_slot-Holds, extend-Holds}
use kengen.Containers.Queue.Fifo.{Fifo, append_item, enlarged, Represents}

module _ {T : Type 0} where
  pub write_slot-Represents :
      (q : Queue T) (f : Fifo T) (x : T)
      → Represents q f
      → length f.items < q.capacity
      → Represents (write_slot x q) (append_item x f)
  write_slot-Represents q f x r room = record {
    holds = write_slot-Holds q f.items x r.holds room;
    same_capacity = r.same_capacity;
    same_extensions = r.same_extensions;
    same_extended = r.same_extended;
    same_done = r.same_done;
  }

  pub extend-Represents :
      (n : ℕ) (q : Queue T) (f : Fifo T)
      → Represents q f
      → PowerOfTwo n
      → Represents (extend n q) (enlarged n f)
  unfolding extend
  extend-Represents n q f r power = elim (Bool-cases (leb n q.capacity)) [
    | inl e ↦
        let e' : leb n f.capacity ≡ true = subst (λ z. leb n z ≡ true) r.same_capacity e in
        rw (extend, e, e') r
    | inr e ↦
        let e' : leb n f.capacity ≡ false = subst (λ z. leb n z ≡ false) r.same_capacity e in
        let h = rw (extend, e) at (extend-Holds n q f.items r.holds power e) in
        rw (extend, e, e')
          (record {
            holds = h;
            same_capacity = refl;
            same_extensions = r.same_extensions;
            same_extended = ap (λ z. z + 1) r.same_extended;
            same_done = r.same_done;
          })
  ]

  pub extend-open :
      (n : ℕ) (cancelled : Bool) (q : Queue T)
      → (q.done || cancelled) ≡ false
      → ((extend n q).done || cancelled) ≡ false
  unfolding extend
  extend-open n cancelled q h = elim (Bool-cases (leb n q.capacity)) [
    | inl e ↦ rw (extend, e) h
    | inr e ↦ rw (extend, e) h
  ]

  pub extend-capacity : (n : ℕ) (q : Queue T) → n ≤ (extend n q).capacity
  unfolding extend
  extend-capacity n q = elim (Bool-cases (leb n q.capacity)) [
    | inl e ↦ rw (extend, e) (ground (arith, e))
    | inr e ↦ rw (extend, e) (omega arith)
  ]

  pub same_open :
      (q : Queue T) (f : Fifo T) (cancelled b : Bool)
      → Represents q f
      → (q.done || cancelled) ≡ b
      → (f.done || cancelled) ≡ b
  same_open q f cancelled b r h = sym (ap (λ z. z || cancelled) r.same_done) ∙ h

  pub same_room :
      (q : Queue T) (f : Fifo T) (b : Bool)
      → Represents q f
      → ltb (length f.items) q.capacity ≡ b
      → ltb (length f.items) f.capacity ≡ b
  same_room q f b r h = sym (ap (ltb (length f.items)) r.same_capacity) ∙ h

  pub same_extend :
      (q : Queue T) (f : Fifo T) (b : Bool)
      → Represents q f
      → may_extend q.extensions q.extended ≡ b
      → may_extend f.extensions f.extended ≡ b
  same_extend q f b r h =
      sym (
        ap (λ z. may_extend z q.extended) r.same_extensions
        ∙ ap (may_extend f.extensions) r.same_extended)
      ∙ h

  pub enlarged-items : (n : ℕ) (f : Fifo T) → (enlarged n f).items ≡ f.items
  enlarged-items n f = elim (Bool-cases (leb n f.capacity)) [
    | inl e ↦ rw e refl
    | inr e ↦ rw e refl
  ]
