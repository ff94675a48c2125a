-- ===== src/Typesystem/Entrypoints/Enough.antt =====
-- pkg/typesystem/typesystem.go: `hasEntrypoints` ends, since each relation is visited once on a path.
use kengen.Base.{
  ℕ, ◌≤◌, ◌<◌, Text, text_eq, text_eq_iff, text_eq_refl, ◌≡◌, refl, sym, ap, subst, ◌∙◌, inl, inr,
  Bool, true, false, Option, none, some, List, [], ◌∷◌, ◌++◌, map, Memᴰ, length, filter, arith,
  Bool-cases, Option-cases, length-filter_mono, length-filter_lt,
}
use mathlib.Core.List.Memᴰ
use kengen.Typesystem.Model.{Relation, lookup}
use kengen.Typesystem.Lookup.{or_no_relations}
use kengen.Typesystem.Entrypoints.{
  Visited, value, visit, EntryResult, entered, undefined_relation, too_few_children,
  unknown_rewrite, no_fuel, left_with,
}
use kengen.Typesystem.Entrypoints.Visits.{same, value-visit, lookup-Memᴰ}
use kengen.Typesystem.Entrypoints.Spec.{Kept, KeptAll}

-- The fuel was enough.
abbrev pub Ends : EntryResult → Type 0
Ends (entered has loop v) = Unit
Ends (undefined_relation ty r) = Unit
Ends too_few_children = Unit
Ends unknown_rewrite = Unit
Ends no_fuel = ⊥

pub left_with-Ends : (v : Visited) (res : EntryResult) → Ends res → Ends (left_with v res)
left_with-Ends v (entered has loop v') h = tt
left_with-Ends v (undefined_relation ty r) h = tt
left_with-Ends v too_few_children h = tt
left_with-Ends v unknown_rewrite h = tt
left_with-Ends v no_fuel h = h

abbrev pub is_new : Visited → Text × Text → Bool
is_new v k = elim (value v k.0 k.1) [ none ↦ true | some b ↦ false ]

-- The count of the relations, of those listed, that are not visited.
abbrev pub fresh_count : List (Text × Text) → Visited → ℕ
fresh_count ks v = length (filter (is_new v) ks)

-- What is visited in `v` is visited in `v'`.
abbrev Below : Visited → Visited → Type 0
Below v v' =
    (ty r : Text) (b : Bool) → value v ty r ≡ some b → (b' : Bool) × (value v' ty r ≡ some b')

is_new-none : (v : Visited) (k : Text × Text) → value v k.0 k.1 ≡ none → is_new v k ≡ true
is_new-none v k e = rw (is_new, e) refl

is_new-some :
    (v : Visited) (k : Text × Text) {b : Bool} → value v k.0 k.1 ≡ some b → is_new v k ≡ false
is_new-some v k e = rw (is_new, e) refl

is_new-true : (v : Visited) (k : Text × Text) → is_new v k ≡ true → value v k.0 k.1 ≡ none
is_new-true v k e = elim (Option-cases (value v k.0 k.1)) [
  | inl n ↦ n
  | inr (b, s) ↦ absurd (refute (sym (is_new-some v k s) ∙ e))
]
  where
    refute : false ≡ true → ⊥
    refute h = cc

none-some : {b : Bool} → ◌≡◌ {A = Option Bool} none (some b) → ⊥
none-some h = cc

fresh_count-le :
    (ks : List (Text × Text)) (v v' : Visited) → Below v v' → fresh_count ks v' ≤ fresh_count ks v
fresh_count-le ks v v' h = length-filter_mono (is_new v) (is_new v') ks (λ k e. still_new k e)
  where
    still_new : (k : Text × Text) → is_new v' k ≡ true → is_new v k ≡ true
    still_new k e = elim (Option-cases (value v k.0 k.1)) [
      | inl n ↦ is_new-none v k n
      | inr (b, s) ↦
          let (b', s') = h k.0 k.1 b s in absurd (none-some (sym (is_new-true v' k e) ∙ s'))
    ]

visit-Below :
    (ty r : Text) (b : Bool) (v v' : Visited)
    → Kept ty r v v'
    → Below (visit ty r b v) (visit ty r b v')
visit-Below ty r b v v' h ty' r' b' e = elim (Bool-cases (same ty r ty' r')) [
  | inl here ↦ (b, rw (value-visit ty r b v' ty' r', here) refl)
  | inr ne ↦ (
    b',
    rw (value-visit ty r b v' ty' r', ne)
        (h ty' r' b' (rw (value-visit ty r b v ty' r', ne) at e) ne),
  )
]

pub fresh_count-visit :
    (ks : List (Text × Text)) (ty r : Text) (v : Visited)
    → Memᴰ {A = Text × Text} (ty, r) ks
    → value v ty r ≡ none
    → fresh_count ks (visit ty r false v) < fresh_count ks v
fresh_count-visit ks ty r v m new =
    length-filter_lt (is_new v) (is_new (visit ty r false v)) ks (λ k e. still_new k e) m
      (is_new-none v (ty, r) new)
      (is_new-some (visit ty r false v) (ty, r) {b = false}
        (rw (value-visit ty r false v ty r) (ground (arith, text_eq_refl ty, text_eq_refl r))))
  where
    still_new : (k : Text × Text) → is_new (visit ty r false v) k ≡ true → is_new v k ≡ true
    still_new k e = elim (Bool-cases (same ty r k.0 k.1)) [
      | inl here ↦ absurd (
          none-some {b = false} (
            sym (is_new-true (visit ty r false v) k e)
            ∙ rw (value-visit ty r false v k.0 k.1, here) refl))
      | inr ne ↦
          is_new-none v k
            (rw (value-visit ty r false v k.0 k.1, ne) at (is_new-true (visit ty r false v) k e))
    ]

pub KeptAll-le :
    (ks : List (Text × Text)) (v v' : Visited) → KeptAll v v' → fresh_count ks v' ≤ fresh_count ks v
KeptAll-le ks v v' h = fresh_count-le ks v v' (λ ty r b e. (b, h ty r b e))

pub Kept-le :
    (ks : List (Text × Text)) (ty r : Text) (v v' : Visited)
    → Kept ty r v v'
    → fresh_count ks (visit ty r false v') ≤ fresh_count ks (visit ty r false v)
Kept-le ks ty r v v' h =
    fresh_count-le ks (visit ty r false v) (visit ty r false v') (visit-Below ty r false v v' h)

-- The relations of the types.
abbrev pub all_relations : List (Text × List (Text × Relation)) → List (Text × Text)
all_relations [] = []
all_relations ((ty, rs) ∷ more) = map (λ e. (ty, e.0)) rs ++ all_relations more

Memᴰ-left : {A : Type 0} {x : A} (xs ys : List A) → Memᴰ x xs → Memᴰ x (xs ++ ys)
Memᴰ-left [] ys m = absurd (Memᴰ.not-nil m)
Memᴰ-left (y ∷ xs) ys (Memᴰ.head e) = Memᴰ.head e
Memᴰ-left (y ∷ xs) ys (Memᴰ.tail m) = Memᴰ.tail (Memᴰ-left xs ys m)

Memᴰ-right : {A : Type 0} {x : A} (xs ys : List A) → Memᴰ x ys → Memᴰ x (xs ++ ys)
Memᴰ-right [] ys m = m
Memᴰ-right (y ∷ xs) ys m = Memᴰ.tail (Memᴰ-right xs ys m)

Memᴰ-pair :
    (ty r : Text) (rs : List (Text × Relation))
    → Memᴰ r (map (λ e. e.0) rs)
    → Memᴰ {A = Text × Text} (ty, r) (map (λ e. (ty, e.0)) rs)
Memᴰ-pair ty r [] m = absurd (Memᴰ.not-nil m)
Memᴰ-pair ty r (e ∷ rs) (Memᴰ.head h) = Memᴰ.head (ap (λ z. (ty, z)) h)
Memᴰ-pair ty r (e ∷ rs) (Memᴰ.tail m) = Memᴰ.tail (Memᴰ-pair ty r rs m)

pub lookup-all_relations :
    (ts : List (Text × List (Text × Relation))) (ty r : Text) (s : Relation)
    → lookup r (or_no_relations (lookup ty ts)) ≡ some s
    → Memᴰ {A = Text × Text} (ty, r) (all_relations ts)
lookup-all_relations [] ty r s h = absurd (refute h)
  where
    refute : ◌≡◌ {A = Option Relation} none (some s) → ⊥
    refute h = cc
lookup-all_relations ((ty', rs) ∷ more) ty r s h = elim (Bool-cases (text_eq ty' ty)) [
  | inl e ↦
      subst (λ z. Memᴰ {A = Text × Text} (z, r) (map (λ e. (ty', e.0)) rs ++ all_relations more))
        ((text_eq_iff ty' ty).0 e)
        (Memᴰ-left (map (λ e. (ty', e.0)) rs) (all_relations more)
          (Memᴰ-pair ty' r rs (lookup-Memᴰ r rs s (rw e at h))))
  | inr e ↦
      Memᴰ-right (map (λ e. (ty', e.0)) rs) (all_relations more)
        (lookup-all_relations more ty r s (rw e at h))
]
