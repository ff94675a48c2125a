-- ===== src/Storage/Memory/Pages.antt =====
-- pkg/storage/memory/memory.go: the pages of `ReadAuthorizationModels` and `ListStores`, which cut a slice by a
-- continuation token.
use mathlib.Core.Option
use kengen.Base.{
  ℕ, zero, suc, ◌+◌, ◌-◌, ◌≤◌, ◌<◌, Text, text_eq, text_eq_refl, ◌≡◌, refl, ap, ◌∙◌, true, false,
  Option, none, some, List, [], ◌++◌, arith, ltb, ◌==◌, length, take, drop, take_all,
  take-drop_join, length-drop, if◌then◌else◌, Bool-cases, inl, inr,
}
use kengen.Base.Decimal.{ℤ, pos, negsuc, int_limit, itoa, atoi, atoi-itoa, itoa_some}
use kengen.Storage.Record.{Result, ok, err, bad_integer}

-- `storage.DefaultPageSize`
abbrev pub default_page_size : ℕ
default_page_size = 50

-- `DefaultPageSize`, or the size of the options if it is above 0
abbrev pub page_size_of : ℕ → ℕ
page_size_of zero = default_page_size
page_size_of (suc n) = suc n

-- `max(0, min(from, n))`
abbrev pub clip : ℤ → ℕ → ℕ
clip (pos from) n = if ltb from n then from else n
clip (negsuc from) n = 0

-- The number that a continuation token holds; none is 0.
unfoldable pub token_offset : {C : Type 0} → Text → Result C ℤ
token_offset token =
    if text_eq token []
    then ok (pos 0)
    else elim (atoi token) [ none ↦ err bad_integer | some n ↦ ok n ]

-- The slice from `from` on, at most `size` long, and the token of the next one.
unfoldable pub window : {A : Type 0} → List A → ℕ → ℕ → List A × Text
window xs size from =
    let to = if ltb (from + size) (length xs) then from + size else length xs in
    (take (to - from) (drop from xs), if to == length xs then [] else itoa to)

module _ {C A : Type 0} where
  unfoldable pub page_at : List A → ℕ → Text → Result C (List A × Text)
  unfolding token_offset window
  page_at xs size token = elim (token_offset token) [
    | err e ↦ err e
    | ok n ↦ ok (window xs size (clip n (length xs)))
  ]

  -- A client that follows the continuation tokens of a listing; `none` when it runs out of rounds or a page fails.
  unfoldable pub follow : (Text → Result C (List A × Text)) → ℕ → Text → Option (List A)
  follow listing zero token = none
  follow listing (suc fuel) token = elim (listing token) [
    | err e ↦ none
    | ok (xs, next) ↦
        let more = follow listing fuel next in
        if text_eq next [] then some xs else Option.map (λ rest. xs ++ rest) more
  ]

module _ {A : Type 0} where
  window-last :
      (xs : List A) (size n : ℕ)
      → n ≤ length xs
      → ltb (n + size) (length xs) ≡ false
      → window xs size n ≡ (drop n xs, [])
  unfolding window
  window-last xs size n hn h =
      let same : (length xs == length xs) ≡ true = ground arith in
      let all_of = take_all (length xs - n) (drop n xs) (omega (arith, length-drop n xs)) in
      rw (window, h, same, all_of) refl

  window-more :
      (xs : List A) (size n : ℕ)
      → ltb (n + size) (length xs) ≡ true
      → window xs size n ≡ (take size (drop n xs), itoa (n + size))
  unfolding window
  window-more xs size n h =
      let less : (n + size == length xs) ≡ false = ground (arith, h) in
      let count : n + size - n ≡ size = omega arith in rw (window, h, less, count) refl

module _ {C A : Type 0} where
  page_at-token :
      (xs : List A) (size n : ℕ)
      → n < int_limit
      → page_at {C = C} xs size (itoa n) ≡ ok (window xs size (clip (pos n) (length xs)))
  unfolding page_at token_offset
  page_at-token xs size n small = ground (arith, itoa_some n, atoi-itoa n small)

  follow_from :
      (xs : List A) (size fuel n : ℕ) (token : Text)
      → 0 < size
      → n ≤ length xs
      → length xs < int_limit
      → length xs < fuel + n
      → page_at {C = C} xs size token ≡ ok (window xs size n)
      → follow (page_at {C = C} xs size) fuel token ≡ some (drop n xs)
  unfolding follow
  follow_from xs size zero n token hp hn small enough h = absurd (omega (arith, enough))
  follow_from xs size (suc fuel) n token hp hn small enough h =
      elim (Bool-cases (ltb (n + size) (length xs))) [
        | inl more ↦
            let clipped : clip (pos (n + size)) (length xs) ≡ n + size = rw more refl in
            let rest =
              follow_from xs size fuel (n + size) (itoa (n + size)) hp (ground arith) small
                (omega arith)
                (page_at-token xs size (n + size) (ground arith)
                  ∙ ap (λ z. ok (window xs size z)) clipped) in
            let this_page = h ∙ ap ok (window-more xs size n more) in
            rw (follow, this_page, itoa_some (n + size), rest) (ap some (take-drop_join n size xs))
        | inr last ↦
            let this_page = h ∙ ap ok (window-last xs size n hn last) in
            rw (follow, this_page, text_eq_refl []) refl
      ]

clip-zero : (n : ℕ) → clip (pos 0) n ≡ 0
clip-zero n = ground arith

-- Following the tokens from the start gives the whole list, within one round more than it is long.
pub follow_all :
    {A : Type 0} (C : Type 0) (xs : List A) (size fuel : ℕ)
    → 0 < size
    → length xs < int_limit
    → length xs < fuel
    → follow (page_at {C = C} xs size) fuel [] ≡ some xs
unfolding page_at token_offset
follow_all C xs size fuel hp small enough =
    follow_from xs size fuel 0 [] hp (omega arith) small (omega arith) (
      rw (page_at, token_offset, text_eq_refl [])
        (ap (λ z. ok (window xs size z)) (clip-zero (length xs))))
