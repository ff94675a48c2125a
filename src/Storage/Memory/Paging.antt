-- ===== src/Storage/Memory/Paging.antt =====
-- Reading a store page by page.
use mathlib.Core.Option
use kengen.Base.{
  ℕ, zero, suc, ◌+◌, ◌≤◌, ◌<◌, Text, text_eq, text_eq_refl, ◌≡◌, refl, sym, ap, ◌∙◌, Bool, false,
  Option, none, some, List, [], ◌∷◌, ◌++◌, map, map-append, append_assoc, append-nil, arith, ltb,
  length, Selected, take, drop, take-append-drop, drop-drop, length-drop, if◌then◌else◌, Bool-cases,
  inl, inr,
}
use kengen.Base.Decimal.{pos, int_limit, itoa, atoi-itoa, itoa_some}
use kengen.Storage.Record.{TupleRecord, Tuple, as_tuple, ok, err}
use kengen.Storage.Memory.Write.{TupleBackend}
use kengen.Storage.Memory.Read.{
  ReadFilter, StaticIterator, to_array_loop, to_array, read_matches, read_from, read, read_page,
}
use kengen.Storage.Memory.Described.{Described, read_matches-Described}

-- A context that is never done.
abbrev pub never : ℕ → Bool
never i = false

join_pages :
    {A B : Type 0} (f : A → B) (n p : ℕ) (xs : List A)
    → map f (take p (drop n xs)) ++ map f (drop (n + p) xs) ≡ map f (drop n xs)
join_pages f n p xs =
    sym (map-append f (take p (drop n xs)) (drop (n + p) xs))
    ∙ ap (map f) (
        ap (λ z. take p (drop n xs) ++ z) (sym (drop-drop n p xs)) ∙ take-append-drop p (drop n xs))

module _ {C : Type 0} where
  to_array_loop_lem :
      (e : C) (i : ℕ) (rs : List (TupleRecord C)) (token : Text) (res : List (Tuple C))
      → to_array_loop e never i
          (length rs)
          (record { records = rs; continuation_token = token })
          res
        ≡ ok (res ++ map (as_tuple e) rs)
  unfolding to_array_loop
  to_array_loop_lem e i [] token res = ap ok (sym (append-nil res))
  to_array_loop_lem e i (r ∷ rs) token res =
      to_array_loop_lem e (suc i) rs token (res ++ (as_tuple e r ∷ []))
      ∙ ap ok (append_assoc res (as_tuple e r ∷ []) (map (as_tuple e) rs))

  to_array_lem :
      (e : C) (it : StaticIterator C)
      → to_array e never it ≡ ok (map (as_tuple e) it.records, it.continuation_token)
  unfolding to_array
  to_array_lem e it = rw (to_array_loop_lem e 0 it.records it.continuation_token [], to_array)

  -- The page behind the first `n` matches.
  abbrev pub page : List (TupleRecord C) → ℕ → ℕ → List (TupleRecord C) × Text
  page ms p n =
      if ltb p (length (drop n ms)) then (take p (drop n ms), itoa (n + p)) else (drop n ms, [])

  -- `read_page` at an offset, however the token spells it.
  read_page_offset :
      (e : C) (s : TupleBackend C) (store : Text) (f : ReadFilter) (p n : ℕ) (from : Text)
      → 0 < p
      → n ≤ length (read_matches (s.tuples store) f)
      → read_from {C = C} from ≡ ok (pos n)
      → let (rs, token) = page (read_matches (s.tuples store) f) p n in
        read_page e never s store f (record { page_size = p; from = from })
        ≡ ok (map (as_tuple e) rs, token)
  unfolding read_page read
  read_page_offset e s store f p n from hp hn h =
      let ms = read_matches (s.tuples store) f in
      ground (
        arith,
        to_array_lem e (record { records = take p (drop n ms); continuation_token = itoa (n + p) }),
        to_array_lem e (record { records = drop n ms; continuation_token = [] }),
      )

  read_from-itoa : (n : ℕ) → n < int_limit → read_from {C = C} (itoa n) ≡ ok (pos n)
  unfolding read_from
  read_from-itoa n h = ground (arith, itoa_some n, atoi-itoa n h)

  -- A client that follows the continuation tokens; `none` when it runs out of rounds or a page fails.
  unfoldable pub read_all :
      C → TupleBackend C → Text → ReadFilter → ℕ → ℕ → Text → Option (List (Tuple C))
  read_all e s store f p zero from = none
  read_all e s store f p (suc fuel) from =
      elim (read_page e never s store f (record { page_size = p; from = from })) [
        | err x ↦ none
        | ok (ts, token) ↦
            let more = read_all e s store f p fuel token in
            if text_eq token [] then some ts else Option.map (λ rest. ts ++ rest) more
      ]

  read_all_from :
      (e : C) (s : TupleBackend C) (store : Text) (f : ReadFilter) (p fuel n : ℕ) (from : Text)
      → 0 < p
      → n ≤ length (read_matches (s.tuples store) f)
      → length (read_matches (s.tuples store) f) < int_limit
      → length (read_matches (s.tuples store) f) < fuel + n
      → read_from {C = C} from ≡ ok (pos n)
      → read_all e s store f p fuel from
        ≡ some (map (as_tuple e) (drop n (read_matches (s.tuples store) f)))
  unfolding read_all
  read_all_from e s store f p zero n from hp hn small enough h = absurd (omega arith)
  read_all_from e s store f p (suc fuel) n from hp hn small enough h =
      let ms = read_matches (s.tuples store) f in
      let one = read_page_offset e s store f p n from hp hn h in
      elim (Bool-cases (ltb p (length (drop n ms)))) [
        | inl more ↦
            let later = length-drop n ms in
            let rest =
              read_all_from e s store f p fuel (n + p) (itoa (n + p)) hp (ground arith) small
                (omega arith) (read_from-itoa (n + p) (ground arith)) in
            let joined = join_pages (as_tuple e) n p ms in ground (arith, itoa_some (n + p))
        | inr last ↦ ground (arith, text_eq_refl [])
      ]

  -- Following the continuation tokens from the start, with pages of any size above 0, gives every tuple that
  -- the filter describes, once each and in the order of the store, within one round more than there are such tuples: the
  -- object of the tuple is the filter's, or of its type if it names no id; the relation is the filter's; the user is the
  -- filter's, or starts with its type if it names no id; and the condition is one of the filter's. What the filter leaves
  -- empty is not asked for, and a filter with no object, relation and user describes every tuple, whatever its conditions.
  -- The context is never done, and the tuples are fewer than 2^63.
  pub read_all_complete :
      (e : C) (s : TupleBackend C) (store : Text) (f : ReadFilter) (p fuel : ℕ)
      → 0 < p
      → length (read_matches (s.tuples store) f) < int_limit
      → length (read_matches (s.tuples store) f) < fuel
      → (ts : List (TupleRecord C)) × (read_all e s store f p fuel [] ≡ some (map (as_tuple e) ts))
        × Selected (Described f) (s.tuples store) ts
  unfolding read_from
  read_all_complete e s store f p fuel hp small enough = (
    read_matches (s.tuples store) f,
    read_all_from e s store f p fuel 0 [] hp (omega arith) small (omega arith)
        (unfold text_eq in refl),
    read_matches-Described f (s.tuples store),
  )

  -- A continuation token past the last match gives the first page again, where one would expect
  -- none: the tuples are those that the empty token gives.
  -- The page size is above 0, the token is below 2^63 and the context is never done.
  pub read_page_past_end :
      (e : C) (s : TupleBackend C) (store : Text) (f : ReadFilter) (p n : ℕ)
      → 0 < p
      → length (read_matches (s.tuples store) f) < n
      → n < int_limit
      → (first token : Text) × (ts : List (Tuple C)) × (read_page e never s store f
            (record { page_size = p; from = [] })
          ≡ ok (ts, first))
        × (read_page e never s store f (record { page_size = p; from = itoa n }) ≡ ok (ts, token))
  unfolding read_page read read_from
  read_page_past_end e s store f p n hp hn small =
      let ms = read_matches (s.tuples store) f in
      let start = page ms p 0 in
      let number = atoi-itoa n small in
      let token = itoa_some n in
      (
        start.1,
        if ltb p (length ms) then itoa (n + p) else [],
        map (as_tuple e) start.0,
        read_page_offset e s store f p 0 [] hp (omega arith) (unfold text_eq in refl),
        ground (
          arith,
          to_array_lem e (record { records = take p ms; continuation_token = itoa (n + p) }),
          to_array_lem e (record { records = ms; continuation_token = [] }),
        ),
      )
