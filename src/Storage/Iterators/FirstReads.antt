-- ===== src/Storage/Iterators/FirstReads.antt =====
-- internal/iterator/merge.go: what `initialize` reads from two iterators that give the items of a list each.
use kengen.Base.{◌≡◌, refl, ◌∙◌, ap, Bool, true, false, none, List, [], ◌∷◌, inl, inr}
use kengen.Storage.Iterators.Ops.{IteratorOps}
use kengen.Storage.Iterators.Merged.{Merged, and_then, read_first1, read_first2, initialize}
use kengen.Storage.Iterators.Streams.{Yields, List-cases}

abbrev pub ready : {I J T : Type 0} → I → J → T → T → Bool → Bool → Merged I J T
ready i j a b h k = record {
  iter1 = i;
  iter2 = j;
  current1 = a;
  current2 = b;
  has_next1 = h;
  has_next2 = k;
  initialized = true;
}

abbrev pub unread : {I J T : Type 0} → I → J → T → T → Bool → Bool → Merged I J T
unread i j a b h k = record {
  iter1 = i;
  iter2 = j;
  current1 = a;
  current2 = b;
  has_next1 = h;
  has_next2 = k;
  initialized = false;
}

-- The state behind the first reads, by the items of the two iterators.
abbrev pub current_of : {T : Type 0} → T → List T → T
current_of a [] = a
current_of a (x ∷ xs) = x

abbrev pub is_some : {T : Type 0} → List T → Bool
is_some [] = false
is_some (x ∷ xs) = true

module _ {I J T E : Type 0} (ops1 : IteratorOps I T E) (ops2 : IteratorOps J T E)
    (contents1 : I → List T) (contents2 : J → List T) where
  read_first1_lem :
      Yields ops1.next contents1
      → (i : I) (j : J) (a b : T) (h k : Bool)
      → read_first1 ops1 ops2 none (ready i j a b h k) ≡ (
        none,
        ready (ops1.next none i).1 j (current_of a (contents1 i)) b (is_some (contents1 i)) k,
      )
  unfolding read_first1
  read_first1_lem y i j a b h k = elim (List-cases (contents1 i)) [
    | inl e ↦ rw (read_first1, (y i).0, e) refl
    | inr (x, xs, e) ↦ rw (read_first1, (y i).0, e) refl
  ]

  read_first2_lem :
      Yields ops2.next contents2
      → (i : I) (j : J) (a b : T) (h k : Bool)
      → read_first2 ops1 ops2 none (ready i j a b h k) ≡ (
        none,
        ready i (ops2.next none j).1 a (current_of b (contents2 j)) h (is_some (contents2 j)),
      )
  unfolding read_first2
  read_first2_lem z i j a b h k = elim (List-cases (contents2 j)) [
    | inl e ↦ rw (read_first2, (z j).0, e) refl
    | inr (x, xs, e) ↦ rw (read_first2, (z j).0, e) refl
  ]

  pub initialize_lem :
      Yields ops1.next contents1
      → Yields ops2.next contents2
      → (i : I) (j : J) (a b : T) (h k : Bool)
      → initialize ops1 ops2 none (unread i j a b h k) ≡ (
        none,
        ready
            (ops1.next none i).1
            (ops2.next none j).1
            (current_of a (contents1 i))
            (current_of b (contents2 j))
            (is_some (contents1 i))
            (is_some (contents2 j)),
      )
  unfolding initialize and_then
  initialize_lem y z i j a b h k =
      ap (λ r. and_then r (read_first2 ops1 ops2 none)) (read_first1_lem y i j a b h k)
      ∙ read_first2_lem z (ops1.next none i).1 j (current_of a (contents1 i)) b
          (is_some (contents1 i)) k
