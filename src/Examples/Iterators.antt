-- ===== src/Examples/Iterators.antt =====
-- Iterators of pkg/storage over slices.
use kengen.Base.{
  ℕ, ◌≡◌, Bool, false, none, some, List, [], ◌∷◌, map, filter, ltb, ◌==◌, arith, if◌then◌else◌,
  true, refl,
}
use kengen.Storage.Iterators.Ops.{Next, done, fault, IteratorOps, static_ops, combined_ops}
use kengen.Storage.Iterators.Wrap.{filtered_next, filtered_head, tuple_key_ops}
use kengen.Storage.Iterators.Conditions.{
  Tested, tested, test_error, ConditionsFiltered, conditions_next, conditions_head,
}
use kengen.Storage.Iterators.Merged.{
  Sign, less, equal, greater, Merged, merge, merged_next, merged_ops,
}
use kengen.Storage.Iterators.Streams.{
  Yields, Peeks, first, rest, static-Yields, static-Peeks, pending_contents, combined-Yields,
  tuple_key-Yields,
}
use kengen.Storage.Iterators.Filters.{filtered_next-filter, filtered_head-filter}
use kengen.Storage.Iterators.Answer.{holds, conditions_answer}
use kengen.Storage.Iterators.Verdicts.{Answered, conditions_next-answer}
use kengen.Storage.Iterators.Heads.{conditions_head-answer}
use kengen.Storage.Iterators.Faults.{merged_next-fault}
use kengen.Storage.Iterators.Merging.{merge_lists, left1, left2, merged-Yields}
use kengen.Storage.Record.{Tuple}

abbrev slice : IteratorOps (List ℕ) ℕ ℕ
slice = static_ops

abbrev numbers : List ℕ
numbers = 3 ∷ 8 ∷ 5 ∷ []

abbrev same : List ℕ → List ℕ
same xs = xs

abbrev tuples : List (Tuple ℕ) → List (Tuple ℕ)
tuples xs = xs

combined-Yields_example :
    Yields (combined_ops slice).next (λ c. pending_contents slice same c.pending)
    × Peeks (combined_ops slice).head (λ c. pending_contents slice same c.pending)
combined-Yields_example = combined-Yields slice same static-Yields static-Peeks

keys_of_tuples :
    Yields
      (tuple_key_ops (static_ops {T = Tuple ℕ} {E = ℕ})).next
      (λ w. map (λ (t : Tuple ℕ). t.key) (tuples w.iter))
    × Peeks
        (tuple_key_ops (static_ops {T = Tuple ℕ} {E = ℕ})).head
        (λ w. map (λ (t : Tuple ℕ). t.key) (tuples w.iter))
keys_of_tuples = tuple_key-Yields static_ops tuples static-Yields static-Peeks

abbrev big : ℕ → Bool
big n = ltb 4 n

next_of_big :
    (s' : List ℕ) × (filtered_next slice big 4 none numbers ≡ some (first (filter big numbers), s'))
    × (filter big s' ≡ rest (filter big numbers))
next_of_big = filtered_next-filter slice same big static-Yields 4 numbers (omega arith)

head_of_big :
    (s' : List ℕ) × (filtered_head slice big 4 none numbers ≡ some (first (filter big numbers), s'))
    × (filter big s' ≡ filter big numbers)
head_of_big = filtered_head-filter slice same big static-Yields static-Peeks 4 numbers (omega arith)

-- A condition that fails with an error on 8.
abbrev check : ℕ → Tested ℕ
check n = if n == 8 then test_error 1 else tested (ltb 4 n)

abbrev start : ConditionsFiltered (List ℕ) ℕ
start = record { iter = numbers; last_error = none; once_valid = false; stopped = false }

conditions_next-answer_example :
    Answered slice same check numbers start (conditions_next slice check 4 none start)
conditions_next-answer_example =
    conditions_next-answer slice same check static-Yields 4 start (omega arith)

head_of_conditions :
    (s' : ConditionsFiltered (List ℕ) ℕ) × (conditions_head slice check 4 none start
      ≡ some (conditions_answer check numbers false none, s'))
    × (filter (holds check) (same s'.iter) ≡ filter (holds check) numbers)
head_of_conditions =
    conditions_head-answer slice same check static-Yields static-Peeks 4 start (omega arith)

abbrev sign : ℕ → ℕ → Sign
sign a b = if ltb a b then less else if ltb b a then greater else equal

merged-Yields_example : Yields (merged_ops slice slice 9 sign).next (λ m.
    merge_lists sign (left1 slice slice same same sign m) (left2 slice slice same same sign m))
merged-Yields_example = merged-Yields slice slice same same sign 9 static-Yields static-Yields

-- An iterator whose first read fails, and that has a number left behind it.
abbrev failing : IteratorOps (List ℕ) ℕ ℕ
failing = record {
  next = λ ctx xs. (fault 4, xs);
  head = λ ctx xs. (fault 4, xs);
  stop = λ xs. [];
  is_ordered = λ xs. true;
}

merged_next-fault_example :
    let r : Next ℕ ℕ × Merged (List ℕ) (List ℕ) ℕ =
      merged_next failing slice sign none (merge 0 numbers numbers) in
    (r.0 ≡ fault 4) × ((merged_next failing slice sign none r.1).0 ≡ done)
merged_next-fault_example = merged_next-fault failing slice sign 0 numbers numbers 4 refl
