-- ===== src/Storage/Iterators/Streams.antt =====
-- What an iterator promises: it gives the items of a list, one by one. The static, the combined and the tuple key
-- iterator keep the promise.
use kengen.Base.{◌≡◌, refl, ◌∙◌, ap, Option, none, List, [], ◌∷◌, ◌++◌, map, ◌⊎◌, inl, inr}
use kengen.Storage.Record.{Tuple}
use kengen.Storage.Iterators.Ops.{
  Next, item, done, IteratorOps, static_ops, static_next, static_head, pending_next, pending_head,
  combined_ops,
}
use kengen.Storage.Iterators.Wrap.{tuple_key_ops, map_item}

abbrev pub first : {T E : Type 0} → List T → Next T E
first [] = done
first (x ∷ xs) = item x

abbrev pub rest : {T : Type 0} → List T → List T
rest [] = []
rest (x ∷ xs) = xs

pub List-cases : {T : Type 0} (xs : List T) → (xs ≡ []) ⊎ ((x : T) × (ys : List T) × (xs ≡ x ∷ ys))
List-cases [] = inl refl
List-cases (x ∷ xs) = inr (x, xs, refl)

module _ {I T E : Type 0} where
  -- With a context that is not done, `next` gives the first item and moves on.
  abbrev pub Yields : (Option E → I → Next T E × I) → (I → List T) → Type 0
  Yields next contents =
      (s : I)
      → ((next none s).0 ≡ first (contents s)) × (contents (next none s).1 ≡ rest (contents s))

  -- `head` gives the first item and does not move on.
  abbrev pub Peeks : (Option E → I → Next T E × I) → (I → List T) → Type 0
  Peeks head contents =
      (s : I) → ((head none s).0 ≡ first (contents s)) × (contents (head none s).1 ≡ contents s)

abbrev pub concat : {T : Type 0} → List (List T) → List T
concat [] = []
concat (xs ∷ xss) = xs ++ concat xss

-- A slice as an iterator gives its items.
pub static-Yields : {T E : Type 0} → Yields (static_ops {T = T} {E = E}).next (λ xs. xs)
unfolding static_ops static_next
static-Yields [] = (refl, refl)
static-Yields (x ∷ xs) = (refl, refl)

pub static-Peeks : {T E : Type 0} → Peeks (static_ops {T = T} {E = E}).head (λ xs. xs)
unfolding static_ops static_head
static-Peeks [] = (refl, refl)
static-Peeks (x ∷ xs) = (refl, refl)

module _ {I T E : Type 0} (ops : IteratorOps I T E) (contents : I → List T) where
  abbrev pub pending_contents : List I → List T
  pending_contents its = concat (map contents its)

  pending_next-Yields :
      Yields ops.next contents
      → (its : List I)
      → ((pending_next ops none its).0 ≡ first (pending_contents its))
        × (pending_contents (pending_next ops none its).1 ≡ rest (pending_contents its))
  unfolding pending_next
  pending_next-Yields y [] = (refl, refl)
  pending_next-Yields y (it ∷ its) = elim (List-cases (contents it)) [
    | inl e ↦ rw (pending_next, (y it).0, e) (pending_next-Yields y its)
    | inr (x, xs, e) ↦
        rw (pending_next, (y it).0, e)
          (refl, ap (λ z. z ++ pending_contents its) ((y it).1 ∙ ap rest e))
  ]

  pending_head-Peeks :
      Peeks ops.head contents
      → (its : List I)
      → ((pending_head ops none its).0 ≡ first (pending_contents its))
        × (pending_contents (pending_head ops none its).1 ≡ pending_contents its)
  unfolding pending_head
  pending_head-Peeks y [] = (refl, refl)
  pending_head-Peeks y (it ∷ its) = elim (List-cases (contents it)) [
    | inl e ↦ rw (pending_head, (y it).0, e) (pending_head-Peeks y its)
    | inr (x, xs, e) ↦
        rw (pending_head, (y it).0, e) (refl, ap (λ z. z ++ pending_contents its) ((y it).1 ∙ e))
  ]

  -- If each of its iterators gives the items of a list, a combined iterator gives those of the first list, then
  -- those of the second, and so on, and `head` gives the next one without losing any.
  pub combined-Yields :
      Yields ops.next contents
      → Peeks ops.head contents
      → Yields (combined_ops ops).next (λ c. pending_contents c.pending)
        × Peeks (combined_ops ops).head (λ c. pending_contents c.pending)
  unfolding combined_ops
  combined-Yields y p = (λ c. pending_next-Yields y c.pending, λ c. pending_head-Peeks p c.pending)

module _ {I C E : Type 0} (ops : IteratorOps I (Tuple C) E) (contents : I → List (Tuple C)) where
  -- If its iterator gives the tuples of a list, a tuple key iterator gives their keys, in the same order, and
  -- `head` gives the next one without losing any.
  pub tuple_key-Yields :
      Yields ops.next contents
      → Peeks ops.head contents
      → Yields (tuple_key_ops ops).next (λ w. map (λ t. t.key) (contents w.iter))
        × Peeks (tuple_key_ops ops).head (λ w. map (λ t. t.key) (contents w.iter))
  unfolding tuple_key_ops map_item
  tuple_key-Yields y p = (
    λ w. elim (List-cases (contents w.iter)) [
      | inl e ↦ rw ((y w.iter).0, (y w.iter).1, e) (refl, refl)
      | inr (x, xs, e) ↦ rw ((y w.iter).0, (y w.iter).1, e) (refl, refl)
    ],
    λ w. elim (List-cases (contents w.iter)) [
      | inl e ↦ rw ((p w.iter).0, (p w.iter).1, e) (refl, refl)
      | inr (x, xs, e) ↦ rw ((p w.iter).0, (p w.iter).1, e) (refl, refl)
    ],
  )
