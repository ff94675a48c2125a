-- ===== src/Typesystem/Entrypoints/Visits.antt =====
-- pkg/typesystem/typesystem.go: what `hasEntrypoints` has visited, after a visit and after a call returns.
use kengen.Base.{
  Text, text_eq, text_eq_iff, ◌≡◌, refl, sym, ap, ◌∙◌, inl, inr, Bool, true, ◌&&◌, Option, none,
  some, List, [], ◌∷◌, any, filter, map, Memᴰ, arith, Bool-cases, Option-cases, if◌then◌else◌,
}
use kengen.Typesystem.Model.{lookup, put}
use kengen.Typesystem.Entrypoints.{Visited, or_no_visits, value, visit, leave}

module _ {A : Type 0} where
  pub lookup-put :
      (k j : Text) (a : A) (m : List (Text × A))
      → lookup k (put j a m) ≡ (if text_eq j k then some a else lookup k m)
  lookup-put k j a [] = refl
  lookup-put k j a ((i, b) ∷ m) = elim (Bool-cases (text_eq i j)) [
    | inl e ↦ let ij = (text_eq_iff i j).0 e in ground (arith, e, ap (λ z. text_eq z k) ij)
    | inr e ↦ elim (Bool-cases (text_eq i k)) [
      | inl f ↦
          let jk = ap (text_eq j) ((text_eq_iff i k).0 f) in
          ground (
            arith,
            e,
            f,
            lookup-put k j a m,
            text_eq_iff j i,
            text_eq_iff i j,
            text_eq_iff i k,
            text_eq_iff j k,
          )
      | inr f ↦ ground (arith, e, f, lookup-put k j a m)
    ]
  ]

  pub lookup-filter :
      (p : Text → Bool) (k : Text) (m : List (Text × A))
      → lookup k (filter (λ e. p e.0) m) ≡ (if p k then lookup k m else none)
  lookup-filter p k [] = ground arith
  lookup-filter p k ((i, b) ∷ m) = elim (Bool-cases (text_eq i k)) [
    | inl e ↦ ground (arith, e, lookup-filter p k m, ap p ((text_eq_iff i k).0 e))
    | inr e ↦ ground (arith, e, lookup-filter p k m)
  ]

  -- A key that is looked up is one of the map.
  pub lookup-any :
      (k : Text) (m : List (Text × A)) (a : A)
      → lookup k m ≡ some a
      → any (λ e. text_eq e.0 k) m ≡ true
  lookup-any k [] a h = ground arith
  lookup-any k ((i, b) ∷ m) a h = ground (arith, lookup-any k m a, h)

pub lookup-Memᴰ :
    {A : Type 0} (k : Text) (m : List (Text × A)) (a : A)
    → lookup k m ≡ some a
    → Memᴰ k (map (λ e. e.0) m)
lookup-Memᴰ k [] a h = ground arith
lookup-Memᴰ k ((j, b) ∷ m) a h = elim (Bool-cases (text_eq j k)) [
  | inl e ↦ Memᴰ.head (sym ((text_eq_iff j k).0 e))
  | inr e ↦ Memᴰ.tail (lookup-Memᴰ k m a (rw e at h))
]

-- Whether two relations are one.
abbrev pub same : Text → Text → Text → Text → Bool
same ty r ty' r' = text_eq ty ty' && text_eq r r'

pub value-visit :
    (ty r : Text) (b : Bool) (v : Visited) (ty' r' : Text)
    → value (visit ty r b v) ty' r' ≡ (if same ty r ty' r' then some b else value v ty' r')
unfolding value visit
value-visit ty r b v ty' r' =
    let m : List (Text × Bool) = put r b (or_no_visits (lookup ty v)) in
    elim (Bool-cases (text_eq ty ty')) [
      | inl e ↦
          rw (value, visit, lookup-put ty' ty m v, e)
            (lookup-put r' r b (or_no_visits (lookup ty v))
              ∙ ap (λ z. if text_eq r r' then some b else lookup r' (or_no_visits (lookup z v)))
                  ((text_eq_iff ty ty').0 e))
      | inr e ↦ rw (value, visit, lookup-put ty' ty m v, e) refl
    ]

pub value-leave :
    (v v' : Visited) (ty r : Text)
    → value (leave v v') ty r ≡ (if any (λ e. text_eq e.0 ty) v then value v' ty r else none)
unfolding value leave
value-leave v v' ty r =
    let p : Text → Bool = λ k. any (λ e. text_eq e.0 k) v in
    elim (Bool-cases (p ty)) [
      | inl e ↦ rw (value, leave, lookup-filter p ty v', e) refl
      | inr e ↦ rw (value, leave, lookup-filter p ty v', e) refl
    ]

pub value-any :
    (v : Visited) (ty r : Text) (b : Bool)
    → value v ty r ≡ some b
    → any (λ e. text_eq e.0 ty) v ≡ true
unfolding value
value-any v ty r b h = elim (Option-cases (lookup ty v)) [
  | inl e ↦ absurd (none-some (rw (value, e) at h))
  | inr (m, e) ↦ lookup-any ty v m e
]
  where
    none-some : ◌≡◌ {A = Option Bool} none (some b) → ⊥
    none-some k = cc
