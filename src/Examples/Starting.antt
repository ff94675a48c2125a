-- ===== src/Examples/Starting.antt =====
-- Tuples of the in-memory datastore read from the user on.
use mathlib.Core.List.{Permᴰ}
use kengen.Base.{text, text_eq, ◌≡◌, refl, Bool, none, List, [], ◌∷◌, filter, if◌then◌else◌}
use kengen.Storage.Memory.Starting.{ReadStartingWithUserFilter, target_user, starts}
use kengen.Examples.Reading.{backend}

module _ {A : Type 0} where
  abbrev insert : (A → A → Bool) → A → List A → List A
  insert less x [] = x ∷ []
  insert less x (y ∷ ys) = let rest = insert less x ys in if less y x then y ∷ rest else x ∷ y ∷ ys

  -- `sort.Slice` as an insertion sort
  abbrev insertion_sort : (A → A → Bool) → List A → List A
  insertion_sort less [] = []
  insertion_sort less (x ∷ xs) = insert less x (insertion_sort less xs)

  pub perm_refl : (xs : List A) → Permᴰ xs xs
  perm_refl [] = Permᴰ.nil
  perm_refl (x ∷ xs) = Permᴰ.cons refl (perm_refl xs)

abbrev viewed : ReadStartingWithUserFilter
viewed = record {
  object_type = text "doc";
  relation = text "viewer";
  user_filter = (text "user:anne", []) ∷ (text "group:eng", text "member") ∷ [];
  object_ids = none;
  conditions = [];
}

found_members : filter (starts viewed) (backend.tuples (text "s")) ≡ backend.tuples (text "s")
unfolding target_user text_eq kengen.Tuple.Split.get_object_relation_as_string
found_members = refl
