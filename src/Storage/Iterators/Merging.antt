-- ===== src/Storage/Iterators/Merging.antt =====
-- The merged iterator gives the merge of the two lists of items.
use kengen.Base.{
  ◌≡◌, refl, sym, subst, ◌∙◌, ap, Bool, true, false, none, List, [], ◌∷◌, ◌⊎◌, inl, inr,
  if◌then◌else◌,
}
use kengen.Storage.Iterators.Ops.{Next, IteratorOps}
use kengen.Storage.Iterators.Merged.{
  Sign, less, equal, greater, Merged, and_then, give, advance1, advance2, initialize, merged_step,
  after_initialize, merged_next, merged_ops,
}
use kengen.Storage.Iterators.FirstReads.{ready, unread, current_of, is_some, initialize_lem}
use kengen.Storage.Iterators.Streams.{Yields, first, rest, List-cases}

-- The merge of two lists: of two first elements that are equal the second one is dropped.
abbrev pub merge_lists : {T : Type 0} → (T → T → Sign) → List T → List T → List T
merge_lists c [] ys = ys
merge_lists c (x ∷ xs) [] = x ∷ xs
merge_lists c (x ∷ xs) (y ∷ ys) =
    let l = merge_lists c xs (y ∷ ys) in
    let g = merge_lists c (x ∷ xs) ys in
    let e = merge_lists c xs ys in elim (c x y) [ less ↦ x ∷ l | greater ↦ y ∷ g | equal ↦ x ∷ e ]

Sign-cases : (s : Sign) → (s ≡ less) ⊎ (s ≡ greater) ⊎ (s ≡ equal)
Sign-cases less = inl refl
Sign-cases greater = inr (inl refl)
Sign-cases equal = inr (inr refl)

abbrev queue : {T : Type 0} → Bool → T → List T → List T
queue true x xs = x ∷ xs
queue false x xs = []

module _ {I J T E : Type 0} (ops1 : IteratorOps I T E) (ops2 : IteratorOps J T E) where
  module _ (contents1 : I → List T) (contents2 : J → List T) (c : T → T → Sign) where
    -- What is left of each iterator: the current value, if any, and the items behind it.
    abbrev pub left1 : Merged I J T → List T
    left1 m =
        if m.initialized
        then queue m.has_next1 m.current1 (contents1 m.iter1)
        else contents1 m.iter1

    abbrev pub left2 : Merged I J T → List T
    left2 m =
        if m.initialized
        then queue m.has_next2 m.current2 (contents2 m.iter2)
        else contents2 m.iter2

    -- What `Next` gives, and what is left behind it.
    abbrev Gives : Next T E × Merged I J T → List T → Type 0
    Gives r xs = (r.0 ≡ first xs) × (merge_lists c (left1 r.1) (left2 r.1) ≡ rest xs)

    merged_step_lem :
        Yields ops1.next contents1
        → Yields ops2.next contents2
        → (i : I) (j : J) (a b : T) (h k : Bool)
        → Gives
            (merged_step ops1 ops2 c none (ready i j a b h k))
            (merge_lists c (queue h a (contents1 i)) (queue k b (contents2 j)))
    unfolding merged_step advance1 advance2 and_then give
    merged_step_lem y z i j a b false false = (refl, refl)
    merged_step_lem y z i j a b false true = elim (List-cases (contents2 j)) [
      | inl e ↦ rw (merged_step, advance2, (z j).0, e) (refl, refl)
      | inr (x, xs, e) ↦ rw (merged_step, advance2, (z j).0, e, (z j).1, e) (refl, refl)
    ]
    merged_step_lem y z i j a b true false = elim (List-cases (contents1 i)) [
      | inl e ↦ rw (merged_step, advance1, (y i).0, e) (refl, refl)
      | inr (x, xs, e) ↦ rw (merged_step, advance1, (y i).0, e, (y i).1, e) (refl, refl)
    ]
    merged_step_lem y z i j a b true true =
        let k1 : (xs : List T) (x : T)
            → contents1 i ≡ x ∷ xs
            → contents1 (ops1.next none i).1 ≡ xs =
          λ xs x e. (y i).1 ∙ ap rest e in
        let k2 : (xs : List T) (x : T)
            → contents2 j ≡ x ∷ xs
            → contents2 (ops2.next none j).1 ≡ xs =
          λ xs x e. (z j).1 ∙ ap rest e in
        elim (Sign-cases (c a b)) [
          | inl s ↦ elim (List-cases (contents1 i)) [
            | inl e ↦ rw (merged_step, s, advance1, (y i).0, e) (refl, refl)
            | inr (x, xs, e) ↦
                rw (merged_step, s, advance1, (y i).0, e)
                  (refl, ap (λ w. merge_lists c (x ∷ w) (b ∷ contents2 j)) (k1 xs x e))
          ]
          | inr (inl s) ↦ elim (List-cases (contents2 j)) [
            | inl e ↦ rw (merged_step, s, advance2, (z j).0, e) (refl, refl)
            | inr (x, xs, e) ↦
                rw (merged_step, s, advance2, (z j).0, e)
                  (refl, ap (λ w. merge_lists c (a ∷ contents1 i) (x ∷ w)) (k2 xs x e))
          ]
          | inr (inr s) ↦ elim (List-cases (contents1 i)) [
            | inl e ↦ elim (List-cases (contents2 j)) [
              | inl f ↦ rw (merged_step, s, advance1, (y i).0, e, advance2, (z j).0, f) (refl, refl)
              | inr (x, ys, f) ↦
                  rw (merged_step, s, advance1, (y i).0, e, advance2, (z j).0, f)
                    (refl, ap (λ w. x ∷ w) (k2 ys x f))
            ]
            | inr (x, xs, e) ↦ elim (List-cases (contents2 j)) [
              | inl f ↦
                  rw (merged_step, s, advance1, (y i).0, e, advance2, (z j).0, f)
                    (refl, ap (λ w. x ∷ w) (k1 xs x e))
              | inr (x', ys, f) ↦
                  rw (merged_step, s, advance1, (y i).0, e, advance2, (z j).0, f)
                    (
                      refl,
                      ap (λ w. merge_lists c (x ∷ w) (x' ∷ contents2 (ops2.next none j).1))
                            (k1 xs x e)
                          ∙ ap (λ w. merge_lists c (x ∷ xs) (x' ∷ w)) (k2 ys x' f),
                    )
            ]
          ]
        ]

    transfer :
        {r r' : Next T E × Merged I J T} {xs ys : List T}
        → r ≡ r'
        → xs ≡ ys
        → Gives r' ys
        → Gives r xs
    transfer {r' = r'} {xs = xs} p q g =
        subst (λ r. Gives r xs) (sym p) (subst (Gives r') (sym q) g)

    lists :
        {xs xs' ys ys' : List T} → xs ≡ xs' → ys ≡ ys' → merge_lists c xs ys ≡ merge_lists c xs' ys'
    lists {xs' = xs'} {ys = ys} p q = ap (λ w. merge_lists c w ys) p ∙ ap (merge_lists c xs') q

    queue_rest :
        (a : T) (xs ys : List T) → ys ≡ rest xs → queue (is_some xs) (current_of a xs) ys ≡ xs
    queue_rest a [] ys q = refl
    queue_rest a (x ∷ xs) ys q = ap (λ w. x ∷ w) q

    unread_lem :
        Yields ops1.next contents1
        → Yields ops2.next contents2
        → (i : I) (j : J) (a b : T) (h k : Bool)
        → Gives
            (merged_next ops1 ops2 c none (unread i j a b h k))
            (merge_lists c (contents1 i) (contents2 j))
    unfolding merged_next after_initialize
    unread_lem y z i j a b h k =
        transfer
          (ap (after_initialize ops1 ops2 c none)
            (initialize_lem ops1 ops2 contents1 contents2 y z i j a b h k))
          (lists (sym (queue_rest a (contents1 i) (contents1 (ops1.next none i).1) (y i).1))
            (sym (queue_rest b (contents2 j) (contents2 (ops2.next none j).1) (z j).1)))
          (merged_step_lem y z (ops1.next none i).1 (ops2.next none j).1
            (current_of a (contents1 i)) (current_of b (contents2 j)) (is_some (contents1 i))
            (is_some (contents2 j)))

    ready_lem :
        Yields ops1.next contents1
        → Yields ops2.next contents2
        → (i : I) (j : J) (a b : T) (h k : Bool)
        → Gives
            (merged_next ops1 ops2 c none (ready i j a b h k))
            (merge_lists c (queue h a (contents1 i)) (queue k b (contents2 j)))
    unfolding merged_next initialize after_initialize
    ready_lem y z i j a b h k = merged_step_lem y z i j a b h k

    by_fields :
        Yields ops1.next contents1
        → Yields ops2.next contents2
        → (init : Bool) (i : I) (j : J) (a b : T) (h k : Bool)
        → let m : Merged I J T = record {
          iter1 = i;
          iter2 = j;
          current1 = a;
          current2 = b;
          has_next1 = h;
          has_next2 = k;
          initialized = init;
        } in
          Gives (merged_next ops1 ops2 c none m) (merge_lists c (left1 m) (left2 m))
    by_fields y z true i j a b h k = ready_lem y z i j a b h k
    by_fields y z false i j a b h k = unread_lem y z i j a b h k

    -- If the two iterators give the items of a list each, the merged iterator gives the merge of the two lists: by
    -- `compare` the lesser of the two first elements, and of two equal ones the first.
    pub merged-Yields :
        (not_supported : E)
        → Yields ops1.next contents1
        → Yields ops2.next contents2
        → Yields
            (merged_ops ops1 ops2 not_supported c).next
            (λ m. merge_lists c (left1 m) (left2 m))
    unfolding merged_ops
    merged-Yields not_supported y z m =
        by_fields y z m.initialized m.iter1 m.iter2 m.current1 m.current2 m.has_next1 m.has_next2
