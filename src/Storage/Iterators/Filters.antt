-- ===== src/Storage/Iterators/Filters.antt =====
-- The filtered iterator gives the items that pass, and its loops end.
use kengen.Base.{
  ℕ, zero, suc, ◌<◌, ◌≡◌, refl, ◌∙◌, ap, Bool, none, some, List, [], ◌∷◌, length, filter,
  Bool-cases, inl, inr, arith,
}
use kengen.Storage.Iterators.Ops.{IteratorOps}
use kengen.Storage.Iterators.Wrap.{filtered_next, filtered_head}
use kengen.Storage.Iterators.Streams.{Yields, Peeks, first, rest, List-cases}

module _ {I T E : Type 0} (ops : IteratorOps I T E) (contents : I → List T) (keep : T → Bool) where
  -- If its iterator gives the items of a list, `Next` of the filtered iterator ends within a round more than these,
  -- gives the first item that passes, or that there is none, and leaves the items that pass behind it.
  -- The context is not done.
  pub filtered_next-filter :
      Yields ops.next contents
      → (n : ℕ) (s : I) → length (contents s) < n
      → (s' : I) × (filtered_next ops keep n none s ≡ some (first (filter keep (contents s)), s'))
        × (filter keep (contents s') ≡ rest (filter keep (contents s)))
  unfolding filtered_next
  filtered_next-filter y zero s h = absurd (omega (arith, h))
  filtered_next-filter y (suc n) s h = elim (List-cases (contents s)) [
    | inl e ↦
        let k : contents (ops.next none s).1 ≡ [] = (y s).1 ∙ ap rest e in
        ((ops.next none s).1, rw (filtered_next, (y s).0, e) refl, rw (k, e) refl)
    | inr (x, xs, e) ↦
        let k : contents (ops.next none s).1 ≡ xs = (y s).1 ∙ ap rest e in
        let (s', i, j) =
          filtered_next-filter y n (ops.next none s).1
            (omega (arith, h, ap length k, ap length e)) in
        elim (Bool-cases (keep x)) [
          | inl t ↦ ((ops.next none s).1, rw (filtered_next, (y s).0, e, t) refl, rw (k, e, t) refl)
          | inr t ↦ (
            s',
            rw (filtered_next, (y s).0, e, t) (i ∙ ap (λ z. some (first (filter keep z), s')) k),
            rw (e, t) (j ∙ ap (λ z. rest (filter keep z)) k),
          )
        ]
  ]

  -- If its iterator gives the items of a list, `Head` of the filtered iterator ends within a round more than these,
  -- gives the first item that passes, or that there is none, and leaves all the items that pass.
  -- The context is not done.
  pub filtered_head-filter :
      Yields ops.next contents
      → Peeks ops.head contents
      → (n : ℕ) (s : I) → length (contents s) < n
      → (s' : I) × (filtered_head ops keep n none s ≡ some (first (filter keep (contents s)), s'))
        × (filter keep (contents s') ≡ filter keep (contents s))
  unfolding filtered_head
  filtered_head-filter y p zero s h = absurd (omega (arith, h))
  filtered_head-filter y p (suc n) s h = elim (List-cases (contents s)) [
    | inl e ↦ ((ops.head none s).1, rw (filtered_head, (p s).0, e) refl, rw ((p s).1, e) refl)
    | inr (x, xs, e) ↦
        let s1 : I = (ops.head none s).1 in
        let k1 : contents s1 ≡ x ∷ xs = (p s).1 ∙ e in
        let k2 : contents (ops.next none s1).1 ≡ xs = (y s1).1 ∙ ap rest k1 in
        let (s', i, j) =
          filtered_head-filter y p n (ops.next none s1).1
            (omega (arith, h, ap length k2, ap length e)) in
        elim (Bool-cases (keep x)) [
          | inl t ↦ (s1, rw (filtered_head, (p s).0, e, t) refl, rw (k1, e, t) refl)
          | inr t ↦ (
            s',
            rw (filtered_head, (p s).0, e, t, (y s1).0, k1)
                (i ∙ ap (λ z. some (first (filter keep z), s')) k2),
            rw (e, t) (j ∙ ap (filter keep) k2),
          )
        ]
  ]
