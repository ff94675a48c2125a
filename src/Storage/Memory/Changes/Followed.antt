-- ===== src/Storage/Memory/Changes/Followed.antt =====
-- The changes that a client of `ReadChanges` gets that follows the continuation tokens.
use mathlib.Core.Option.{none-ne-some}
use kengen.Base.{
  ℕ, zero, suc, ◌≤◌, ◌<◌, Text, text_eq, text_eq_refl, text_eq_iff, ◌≡◌, refl, sym, ap, ◌∙◌, subst,
  false, Option, none, some, List, [], ◌∷◌, ◌++◌, map, length, take, take_all, take-append-drop,
  length-drop, map-append, ◌==◌, drop, ltb, arith, Bool-cases, inl, inr,
}
use kengen.Storage.Record.{TupleChange, TupleChangeRec, Result, ok, err, not_found}
use kengen.Storage.Iterators.Streams.{List-cases}
use kengen.Storage.Memory.Write.{TupleBackend}
use kengen.Storage.Memory.Pages.{page_size_of}
use kengen.Storage.Memory.Changes.{
  ReadChangesFilter, last_ulid, changes_page, parse_from, read_changes,
}
use kengen.Storage.Memory.Changes.Later.{
  Ascending, Ascending-later_than, Ascending-visible, changes_loop_lem, last_ulid-bound, later_than,
  later_than-last_ulid, later_than-left, visible,
}

page_size_positive : (p : ℕ) → (size : ℕ) × (page_size_of p ≡ suc size)
page_size_positive zero = (49, refl)
page_size_positive (suc n) = (n, refl)

nonzero : (n : ℕ) → (suc n == 0) ≡ false
nonzero n = ground arith

module _ {C : Type 0} where
  take_short :
      (n : ℕ) (cs : List (TupleChangeRec C)) → length cs ≤ n → take (length cs) cs ≡ take n cs
  take_short n cs h = take_all (length cs) cs (omega arith) ∙ sym (take_all n cs h)

  changes_page_lem :
      (ulid_string : ℕ → Text) (p size : ℕ) (token : Text) (c : TupleChangeRec C)
      (cs : List (TupleChangeRec C))
      → page_size_of p ≡ suc size
      → changes_page ulid_string
          (record { pagination = record { page_size = p; from = token }; sort_desc = false })
          (c ∷ cs)
        ≡ ok (map (λ x. x.change) (c ∷ take size cs), ulid_string (last_ulid c.ulid (take size cs)))
  unfolding changes_page last_ulid
  changes_page_lem ulid_string p size token c cs h =
      elim (Bool-cases (ltb (suc (length cs)) (suc size))) [
        | inl e ↦
            rw (changes_page, h, e, nonzero (length cs), take_short size cs (ground (arith, e)))
              refl
        | inr e ↦ rw (changes_page, h, e, nonzero (length cs), nonzero size) refl
      ]

  -- A client that asks for the page of each token it gets, until the datastore has no further change; `none` when it runs
  -- out of rounds or a page fails.
  unfoldable pub follow_changes :
      (Text → Result C (List (TupleChange C) × Text)) → ℕ → Text → Option (List (TupleChange C))
  follow_changes read zero token = none
  follow_changes read (suc fuel) token = elim (read token) [
    | err not_found ↦ some []
    | err e ↦ none
    | ok (xs, next) ↦
        let more = follow_changes read fuel next in
        elim more [ none ↦ none | some rest ↦ some (xs ++ rest) ]
  ]

  follow_changes-page :
      (read : Text → Result C (List (TupleChange C) × Text)) (fuel : ℕ) (token next : Text)
      (xs others : List (TupleChange C))
      → read token ≡ ok (xs, next)
      → follow_changes read fuel next ≡ some others
      → follow_changes read (suc fuel) token ≡ some (xs ++ others)
  unfolding follow_changes
  follow_changes-page read fuel token next xs others h k = rw (follow_changes, h, k) refl

  follow_changes-end :
      (read : Text → Result C (List (TupleChange C) × Text)) (fuel : ℕ) (token : Text)
      → read token ≡ err not_found
      → follow_changes read (suc fuel) token ≡ some []
  unfolding follow_changes
  follow_changes-end read fuel token h = rw (follow_changes, h) refl

  changes_page-nil :
      (ulid_string : ℕ → Text) (p : ℕ) (token : Text)
      → changes_page {C = C} ulid_string
          (record { pagination = record { page_size = p; from = token }; sort_desc = false })
          []
        ≡ err not_found
  unfolding changes_page
  changes_page-nil ulid_string p token = refl

  map-take-drop :
      {B : Type 0} (g : TupleChangeRec C → B) (n : ℕ) (cs : List (TupleChangeRec C))
      → map g (take n cs) ++ map g (drop n cs) ≡ map g cs
  map-take-drop g n cs =
      sym (map-append g (take n cs) (drop n cs)) ∙ ap (map g) (take-append-drop n cs)

module _ {C : Type 0} (ulid_parse : Text → Option ℕ) (ulid_string : ℕ → Text) (now : ℕ)
    (s : TupleBackend C) (store : Text) (f : ReadChangesFilter) (p : ℕ) where
  -- `ReadChanges` from the oldest change on.
  abbrev pub page_from : Text → Result C (List (TupleChange C) × Text)
  page_from token =
      read_changes ulid_parse ulid_string now s store f
        (record { pagination = record { page_size = p; from = token }; sort_desc = false })

  abbrev seen : List (TupleChangeRec C)
  seen = visible f now (s.changes store)

  module _ (ulid_parse-ulid_string : (u : ℕ) → ulid_parse (ulid_string u) ≡ some u)
      (ulid_parse-nil : ulid_parse [] ≡ none) where
    nonempty : (u : ℕ) → text_eq (ulid_string u) [] ≡ false
    nonempty u = elim (Bool-cases (text_eq (ulid_string u) [])) [
      | inr e ↦ e
      | inl e ↦ absurd (
          none-ne-some u (
            sym ulid_parse-nil
            ∙ ap ulid_parse (sym ((text_eq_iff (ulid_string u) []).0 e))
            ∙ ulid_parse-ulid_string u))
    ]

    page_from-token :
        (u : ℕ)
        → page_from (ulid_string u)
          ≡ changes_page ulid_string
              (record {
                pagination = record { page_size = p; from = ulid_string u };
                sort_desc = false;
              })
              (later_than (some u) seen)
    unfolding read_changes parse_from
    page_from-token u =
        rw
          (
            read_changes,
            parse_from,
            nonempty u,
            ulid_parse-ulid_string u,
            changes_loop_lem f now (some u) (s.changes store),
          )
          refl

    follow_from :
        (fuel : ℕ) (from : Option ℕ) (token : Text)
        → Ascending (s.changes store)
        → page_from token
          ≡ changes_page ulid_string
              (record { pagination = record { page_size = p; from = token }; sort_desc = false })
              (later_than from seen)
        → length (later_than from seen) < fuel
        → follow_changes page_from fuel token ≡ some (map (λ c. c.change) (later_than from seen))
    follow_from zero from token a h enough = absurd (omega (arith, enough))
    follow_from (suc fuel) from token a h enough = elim (List-cases (later_than from seen)) [
      | inl k ↦ rw k (
          follow_changes-end page_from fuel token
            (h ∙ ap (changes_page ulid_string _) k ∙ changes_page-nil ulid_string p token))
      | inr (c, cs, k) ↦
          let (size, q) = page_size_positive p in
          let w = last_ulid c.ulid (take size cs) in
          let sorted : Ascending (c ∷ cs) =
            subst Ascending k
              (Ascending-later_than from seen (Ascending-visible f now (s.changes store) a)) in
          let left : later_than (some w) seen ≡ drop size cs =
            later_than-left from seen c cs w k (last_ulid-bound c.ulid size cs sorted.0 sorted.1)
            ∙ later_than-last_ulid c size cs sorted in
          let this_page =
            h
            ∙ ap (changes_page ulid_string _) k
            ∙ changes_page_lem ulid_string p size token c cs q in
          let more = follow_from fuel (some w) (ulid_string w) a (page_from-token w) (
            subst (λ z. length z < fuel) (sym left)
              (omega (arith, length-drop size cs, ap length k, enough))) in
          rw k (
            follow_changes-page page_from fuel token (ulid_string w) _ _ this_page
              (more ∙ ap (λ z. some (map (λ d. d.change) z)) left)
            ∙ ap (λ z. some (c.change ∷ z)) (map-take-drop (λ d. d.change) size cs))
    ]

    -- Reading the changes of a store page by page, oldest first, each page from the token of the one before, gives the
    -- changes of the filter's object type up to the first that is newer than the horizon, each once and in order, and ends
    -- with the error for no further change: within one round more than there are such changes. The ULIDs of the store's
    -- changes ascend, `ulid.Parse` reads what `String` prints, and it refuses an empty string.
    pub read_changes-follow :
        (fuel : ℕ)
        → Ascending (s.changes store)
        → length seen < fuel
        → follow_changes page_from fuel [] ≡ some (map (λ c. c.change) seen)
    unfolding read_changes parse_from
    read_changes-follow fuel a enough =
        follow_from fuel none [] a
          (rw
            (
              read_changes,
              parse_from,
              text_eq_refl [],
              changes_loop_lem f now none (s.changes store),
            )
            refl)
          enough
