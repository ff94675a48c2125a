-- ===== src/Storage/Memory/Read.antt =====
-- pkg/storage/memory/memory.go: the iterator over records and the reads of tuples.
-- `done i` says whether the context is done at the i-th call of `Next`.
use kengen.Base.{
  ℕ, zero, suc, ◌+◌, Text, text_eq, Bool, true, false, not, ◌&&◌, Option, none, some, List, [], ◌∷◌,
  ◌++◌, ltb, leb, ◌==◌, length, take, drop, filter, find, any, if◌then◌else◌,
}
use kengen.Base.Decimal.{ℤ, pos, negsuc, itoa, atoi}
use kengen.Tuple.Split.{get_type, split_object_relation}
use kengen.Tuple.Valid.{UserType, user, user_set, get_user_type_from_user}
use kengen.Storage.Record.{
  TupleRecord, Tuple, as_tuple, Result, ok, err, not_found, context_error, iterator_done,
  bad_integer, slice_panic,
}
use kengen.Storage.Memory.Match.{matches}
use kengen.Storage.Memory.Write.{TupleBackend}

pub record ReadFilter : Type 0 where
  pub object : Text
  pub relation : Text
  pub user : Text
  pub conditions : List Text

pub record PaginationOptions : Type 0 where
  pub page_size : ℕ
  pub from : Text

-- `slices.Contains`
abbrev pub contains_text : List Text → Text → Bool
contains_text xs x = any (λ y. text_eq y x) xs

-- `len(conditions) == 0 || slices.Contains(conditions, name)`
abbrev pub condition_allowed : List Text → Text → Bool
condition_allowed [] name = true
condition_allowed (c ∷ cs) name = contains_text (c ∷ cs) name

pub record StaticIterator (C : Type 0) : Type 0 where
  pub records : List (TupleRecord C)
  pub continuation_token : Text

module _ {C : Type 0} where
  next_of : C → List (TupleRecord C) → StaticIterator C → Result C (Tuple C × StaticIterator C)
  next_of e [] s = err iterator_done
  next_of e (r ∷ rest) s = ok (as_tuple e r, record s { records = rest })

  -- `staticIterator.Next`, in a context that is done or not
  unfoldable pub next : C → Bool → StaticIterator C → Result C (Tuple C × StaticIterator C)
  unfolding next_of
  next e cancelled s = if cancelled then err context_error else next_of e s.records s

  head_of : C → List (TupleRecord C) → Result C (Tuple C)
  head_of e [] = err iterator_done
  head_of e (r ∷ rest) = ok (as_tuple e r)

  -- `staticIterator.Head`
  unfoldable pub head : C → Bool → StaticIterator C → Result C (Tuple C)
  unfolding head_of
  head e cancelled s = if cancelled then err context_error else head_of e s.records

  -- The loop of `ToArray`, once for each record that the iterator held at its start.
  unfoldable pub to_array_loop :
      C → (ℕ → Bool) → ℕ → ℕ → StaticIterator C → List (Tuple C) → Result C (List (Tuple C))
  unfolding next
  to_array_loop e done i zero s res = ok res
  to_array_loop e done i (suc n) s res = elim (next e (done i) s) [
    | err x ↦ err x
    | ok (t, s') ↦ to_array_loop e done (suc i) n s' (res ++ (t ∷ []))
  ]

  -- `staticIterator.ToArray`
  unfoldable pub to_array : C → (ℕ → Bool) → StaticIterator C → Result C (List (Tuple C) × Text)
  unfolding to_array_loop
  to_array e done s = elim (to_array_loop e done 0 (length s.records) s []) [
    | err x ↦ err x
    | ok res ↦ ok (res, s.continuation_token)
  ]

  -- The matches of `read`: with no object, relation and user the whole store.
  unfoldable pub read_matches : List (TupleRecord C) → ReadFilter → List (TupleRecord C)
  read_matches tuples f =
      if text_eq f.object [] && (text_eq f.relation [] && text_eq f.user [])
      then tuples
      else filter
          (λ t.
            matches t f.object f.relation f.user && condition_allowed f.conditions t.condition_name)
          tuples

  unfoldable pub read_from : Text → Result C ℤ
  read_from from =
      if text_eq from []
      then ok (pos 0)
      else elim (atoi from) [ none ↦ err bad_integer | some n ↦ ok n ]

  -- The page of the matches behind the first `from`, and the token of the next one.
  unfoldable pub read_slice : List (TupleRecord C) → ℕ → ℤ → Result C (StaticIterator C)
  read_slice ms to (negsuc n) = err slice_panic
  read_slice ms to (pos from) =
      let ms' = if leb from (length ms) then drop from ms else ms in
      if not (to == 0) && ltb to (length ms')
      then ok (record { records = take to ms'; continuation_token = itoa (from + to) })
      else ok (record { records = ms'; continuation_token = [] })

  -- `MemoryBackend.read`
  unfoldable pub read :
      TupleBackend C → Text → ReadFilter → Option PaginationOptions → Result C (StaticIterator C)
  unfolding read_from read_slice
  read s store f none = read_slice (read_matches (s.tuples store) f) 0 (pos 0)
  read s store f (some options) = elim (read_from options.from) [
    | err x ↦ err x
    | ok n ↦ read_slice (read_matches (s.tuples store) f) options.page_size n
  ]

  -- `MemoryBackend.ReadPage`
  unfoldable pub read_page :
      C
      → (ℕ → Bool)
      → TupleBackend C
      → Text
      → ReadFilter
      → PaginationOptions
      → Result C (List (Tuple C) × Text)
  read_page e done s store f options = elim (read s store f (some options)) [
    | err x ↦ err x
    | ok it ↦ to_array e done it
  ]

  -- `MemoryBackend.ReadUserTuple`
  unfoldable pub read_user_tuple : C → TupleBackend C → Text → ReadFilter → Result C (Tuple C)
  read_user_tuple e s store f =
      elim (find
        (λ t.
          matches t f.object f.relation f.user && condition_allowed f.conditions t.condition_name)
        (s.tuples store)) [ none ↦ err not_found | some t ↦ ok (as_tuple e t) ]

-- `ReadUsersetTuplesFilter`; a relation reference is a type and a relation.
pub record ReadUsersetTuplesFilter : Type 0 where
  pub object : Text
  pub relation : Text
  pub allowed_user_type_restrictions : List (Text × Text)
  pub conditions : List Text

abbrev pub is_user_set : UserType → Bool
is_user_set user = false
is_user_set user_set = true

module _ {C : Type 0} where
  -- The inner loop over the allowed types: the record once for each that it fits.
  unfoldable pub restriction_loop :
      TupleRecord C → List (Text × Text) → List (TupleRecord C) → List (TupleRecord C)
  restriction_loop t [] ms = ms
  restriction_loop t ((typ, rel) ∷ allowed) ms = restriction_loop t allowed (
      if text_eq typ (get_type t.user) && text_eq rel (split_object_relation t.user).1
      then ms ++ (t ∷ [])
      else ms)

  -- The body of the outer loop. The test of the conditions comes after the appends, and its
  -- `continue` is the last statement.
  unfoldable pub userset_step :
      ReadUsersetTuplesFilter
      → TupleRecord C
      → List (Text × Text)
      → List (TupleRecord C)
      → List (TupleRecord C)
  unfolding restriction_loop
  userset_step f t [] ms = ms ++ (t ∷ [])
  userset_step f t (a ∷ allowed) ms =
      let ms' = restriction_loop t (a ∷ allowed) ms in
      if not (condition_allowed f.conditions t.condition_name) then ms' else ms'

  unfoldable pub userset_loop :
      ReadUsersetTuplesFilter → List (TupleRecord C) → List (TupleRecord C) → List (TupleRecord C)
  unfolding userset_step
  userset_loop f [] ms = ms
  userset_loop f (t ∷ tuples) ms = userset_loop f tuples (
      if matches t f.object f.relation [] && is_user_set (get_user_type_from_user t.user)
      then userset_step f t f.allowed_user_type_restrictions ms
      else ms)

  -- `MemoryBackend.ReadUsersetTuples`
  unfoldable pub read_userset_tuples :
      TupleBackend C → Text → ReadUsersetTuplesFilter → StaticIterator C
  unfolding userset_loop
  read_userset_tuples s store f = record {
    records = userset_loop f (s.tuples store) [];
    continuation_token = [];
  }
