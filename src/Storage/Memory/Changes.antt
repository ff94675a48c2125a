-- ===== src/Storage/Memory/Changes.antt =====
-- pkg/storage/memory/memory.go: `ReadChanges`. ULIDs are numbers; `ulid.Parse` and `String` are parameters. The horizon
-- is not negative.
pub mod Later
pub mod Followed
use mathlib.Core.List.{reverse}
use kengen.Base.{
  ℕ, zero, suc, ◌+◌, Text, text, text_eq, has_prefix, Bool, true, false, not, ◌&&◌, ◌||◌, Option,
  none, some, List, [], ◌∷◌, ◌++◌, map, foldl, length, take, ltb, leb, ◌==◌, if◌then◌else◌,
}
use kengen.Storage.Record.{
  TupleChange, TupleChangeRec, Result, ok, err, not_found, invalid_continuation_token,
}
use kengen.Storage.Memory.Write.{TupleBackend}
use kengen.Storage.Memory.Read.{PaginationOptions}
use kengen.Storage.Memory.Pages.{page_size_of}

pub record ReadChangesFilter : Type 0 where
  pub object_type : Text
  pub horizon_offset : ℕ

pub record ReadChangesOptions : Type 0 where
  pub pagination : PaginationOptions
  pub sort_desc : Bool

-- The change is not after the one of the token, in the order of the listing.
unfoldable pub passed : Bool → Option ℕ → ℕ → Bool
passed sort_desc none ulid = false
passed sort_desc (some from) ulid =
    if not sort_desc && leb ulid from then true else sort_desc && leb from ulid

unfoldable pub of_type : {C : Type 0} → ReadChangesFilter → TupleChangeRec C → Bool
of_type f c =
    text_eq f.object_type [] || has_prefix c.change.tuple_key.object (f.object_type ++ text ":")

-- The timestamp is after `now.Add(-horizonOffset)`.
unfoldable pub too_new : {C : Type 0} → ReadChangesFilter → ℕ → TupleChangeRec C → Bool
too_new f now c = ltb now (c.change.timestamp + f.horizon_offset)

module _ {C : Type 0} where
  -- The loop that collects the changes; a change after the horizon ends it.
  unfoldable pub changes_loop :
      ReadChangesFilter → ℕ → Bool → Option ℕ → List (TupleChangeRec C) → List (TupleChangeRec C)
  unfolding passed of_type too_new
  changes_loop f now sort_desc from [] = []
  changes_loop f now sort_desc from (c ∷ cs) =
      let rest = changes_loop f now sort_desc from cs in
      if of_type f c
      then (if too_new f now c then [] else if passed sort_desc from c.ulid then rest else c ∷ rest)
      else rest

  -- The ULID of the last change of a page.
  unfoldable pub last_ulid : ℕ → List (TupleChangeRec C) → ℕ
  last_ulid u cs = foldl (λ _ c. c.ulid) u cs

  -- The page of the changes that were collected
  unfoldable pub changes_page :
      (ℕ → Text)
      → ReadChangesOptions
      → List (TupleChangeRec C)
      → Result C (List (TupleChange C) × Text)
  unfolding last_ulid
  changes_page ulid_string options all_changes =
      let page_size = page_size_of options.pagination.page_size in
      let ordered = if options.sort_desc then reverse all_changes else all_changes in
      let to = if ltb (length ordered) page_size then length ordered else page_size in
      if length all_changes == 0
      then err not_found
      else if to == 0
      then err not_found
      else ok (map (λ c. c.change) (take to ordered), ulid_string (last_ulid 0 (take to ordered)))

  unfoldable pub parse_from : (Text → Option ℕ) → Text → Result C (Option ℕ)
  parse_from ulid_parse token =
      if text_eq token []
      then ok none
      else elim (ulid_parse token) [ none ↦ err invalid_continuation_token | some u ↦ ok (some u) ]

  -- `MemoryBackend.ReadChanges`
  unfoldable pub read_changes :
      (Text → Option ℕ)
      → (ℕ → Text)
      → ℕ
      → TupleBackend C
      → Text
      → ReadChangesFilter
      → ReadChangesOptions
      → Result C (List (TupleChange C) × Text)
  unfolding changes_loop changes_page parse_from
  read_changes ulid_parse ulid_string now s store f options =
      elim (parse_from ulid_parse options.pagination.from) [
        | err e ↦ err e
        | ok from ↦
            changes_page ulid_string options
              (changes_loop f now options.sort_desc from (s.changes store))
      ]
