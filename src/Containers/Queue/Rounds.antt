-- ===== src/Containers/Queue/Rounds.antt =====
-- internal/containers/mpmc/queue.go: what a round of `Send` and of `Recv` does.
use kengen.Base.{
  ℕ, suc, ◌+◌, ◌*◌, ◌%◌, ◌≤◌, ◌<◌, ◌≡◌, refl, sym, ap, ◌∙◌, Bool, true, false, ◌||◌, some, List, [],
  ◌∷◌, length, ltb, ◌==◌, ==_iff, arith, if◌then◌else◌,
}
use kengen.Containers.Queue.{
  Queue, sent, parked, refused, mask, extend, may_extend, write_slot, send,
}
use kengen.Containers.Queue.Modulo.{mod-add_self}
use kengen.Containers.Queue.Holds.{Holds, mask-remainder}

module _ {T : Type 0} where
  -- The slot that `Send` looks at.
  pub head_room :
      (q : Queue T) (xs : List T)
      → Holds q xs
      → length xs < q.capacity
      → (q.cells (mask q q.head)).sequence ≡ q.head
  head_room q xs h room =
      ap (λ z. (q.cells z).sequence) (mask-remainder q xs h q.head)
      ∙ ap (λ z. (q.cells (z % q.capacity)).sequence) h.count
      ∙ h.writable (length xs) (omega arith) room
      ∙ sym h.count

  pub tail_empty : (q : Queue T) → Holds q [] → (q.cells (mask q q.tail)).sequence ≡ q.tail
  tail_empty q h =
      let e : q.tail + 0 ≡ q.tail = omega arith in
      ap (λ z. (q.cells z).sequence) (mask-remainder q [] h q.tail)
      ∙ ap (λ z. (q.cells (z % q.capacity)).sequence) (sym e)
      ∙ h.writable 0 (omega arith) (omega (arith, h.two))
      ∙ e

  pub tail_item :
      (q : Queue T) (x : T) (xs : List T)
      → Holds q (x ∷ xs)
      → q.cells (mask q q.tail) ≡ record { sequence = q.tail + 1; item = some x }
  tail_item q x xs h =
      let e : q.tail + 0 ≡ q.tail = omega arith in
      ap q.cells (mask-remainder q (x ∷ xs) h q.tail)
      ∙ ap (λ z. q.cells (z % q.capacity)) (sym e)
      ∙ h.readable 0 x refl
      ∙ ap (λ z. record { sequence = z + 1; item = some x }) e

  pub head_full :
      (q : Queue T) (xs : List T)
      → Holds q xs
      → q.capacity ≤ length xs
      → (q.cells (mask q q.head)).sequence ≡ q.tail + 1
  head_full q [] h full = absurd (omega (arith, h.two, full))
  head_full q (x ∷ xs) h full =
      let e : q.head ≡ q.tail + q.capacity = omega (arith, h.count, h.fits, full) in
      let around : mask q q.head ≡ mask q q.tail =
        mask-remainder q (x ∷ xs) h q.head
        ∙ ap (λ z. z % q.capacity) e
        ∙ mod-add_self q.tail q.capacity (omega (arith, h.two))
        ∙ sym (mask-remainder q (x ∷ xs) h q.tail) in
      ap (λ z. (q.cells z).sequence) around ∙ ap (λ s. s.sequence) (tail_item q x xs h)

  pub send_room :
      (n : ℕ) (cancelled : Bool) (x : T) (q : Queue T) (xs : List T)
      → (q.done || cancelled) ≡ false
      → Holds q xs
      → length xs < q.capacity
      → send (suc n) cancelled x q ≡ sent (write_slot x q)
  unfolding send
  send_room n cancelled x q xs open_ h room =
      let e : ((q.cells (mask q q.head)).sequence == q.head) ≡ true =
        (==_iff _ q.head).1 (head_room q xs h room) in
      rw (send, open_, e) refl

  pub send_full :
      (n : ℕ) (cancelled : Bool) (x : T) (q : Queue T) (xs : List T)
      → (q.done || cancelled) ≡ false
      → Holds q xs
      → q.capacity ≤ length xs
      → send (suc n) cancelled x q ≡ (
          if may_extend q.extensions q.extended
          then send n cancelled x (extend (q.capacity * 2) q)
          else parked q)
  unfolding send
  send_full n cancelled x q xs open_ h full =
      let s = head_full q xs h full in
      let e : ((q.cells (mask q q.head)).sequence == q.head) ≡ false =
        ground (arith, s, h.count, h.two, full) in
      let b : ltb (q.cells (mask q q.head)).sequence q.head ≡ true =
        ground (arith, s, h.count, h.two, full) in
      rw (send, open_, e, b) refl

  pub send_refused :
      (n : ℕ) (cancelled : Bool) (x : T) (q : Queue T)
      → (q.done || cancelled) ≡ true
      → send (suc n) cancelled x q ≡ refused q
  unfolding send
  send_refused n cancelled x q shut_ = rw (send, shut_) refl
