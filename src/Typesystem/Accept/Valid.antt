-- ===== src/Typesystem/Accept/Valid.antt =====
-- pkg/typesystem/typesystem.go: what each check of `NewAndValidate` says where it passes.
use kengen.Base.{
  Text, text_eq, text_lt, ◌≡◌, refl, ap, ◌∙◌, ◌⊎◌, inl, inr, true, false, Option, none, some, List,
  [], ◌∷◌, ◌++◌, Memᴰ, any, All, All-append, Bool-cases,
}
use mathlib.Core.List.Memᴰ
use kengen.Typesystem.Model.{
  Userset, unset, this, computed_userset, tuple_to_userset, union, intersection, difference,
  Children, leaf, child, Relation, TypeSystem, is_schema_version_supported, flatten_userset,
  flatten_children,
}
use kengen.Typesystem.Lookup.{TypesystemError, ok, get_relation}
use kengen.Typesystem.Rewrites.{
  is_this, also, is_defined, tupleset_error, is_computed_valid, is_tupleset_valid,
  is_userset_rewrite_valid, are_children_valid,
}
use kengen.Typesystem.Restrictions.{each_passes}
use kengen.Typesystem.Cycles.Edges.{computed_relations, computed_children}
use kengen.Typesystem.Cycles.Sound.{Checked-cases}
use kengen.Typesystem.Accept.{insert, sort_strings}

pub also-both : (a b : Option TypesystemError) → also a b ≡ none → (a ≡ none) × (b ≡ none)
also-both none b h = (refl, h)
also-both (some e) b h = (h, cc)

pub each_passes-Memᴰ :
    {A : Type 0} (f : A → Option TypesystemError) (xs : List A) {x : A}
    → each_passes f xs ≡ none
    → Memᴰ x xs
    → f x ≡ none
each_passes-Memᴰ f [] h m = absurd (Memᴰ.not-nil m)
each_passes-Memᴰ f (y ∷ xs) h (Memᴰ.head e) = ap f e ∙ (also-both (f y) (each_passes f xs) h).0
each_passes-Memᴰ f (y ∷ xs) h (Memᴰ.tail m) =
    each_passes-Memᴰ f xs (also-both (f y) (each_passes f xs) h).1 m

Memᴰ-insert : (x y : Text) (ys : List Text) → (x ≡ y) ⊎ Memᴰ x ys → Memᴰ x (insert y ys)
Memᴰ-insert x y [] (inl e) = Memᴰ.head e
Memᴰ-insert x y [] (inr m) = absurd (Memᴰ.not-nil m)
Memᴰ-insert x y (z ∷ ys) (inl e) = elim (Bool-cases (text_lt z y)) [
  | inl b ↦ rw b (Memᴰ.tail (Memᴰ-insert x y ys (inl e)))
  | inr b ↦ rw b (Memᴰ.head e)
]
Memᴰ-insert x y (z ∷ ys) (inr (Memᴰ.head e)) = elim (Bool-cases (text_lt z y)) [
  | inl b ↦ rw b (Memᴰ.head e)
  | inr b ↦ rw b (Memᴰ.tail (Memᴰ.head e))
]
Memᴰ-insert x y (z ∷ ys) (inr (Memᴰ.tail m)) = elim (Bool-cases (text_lt z y)) [
  | inl b ↦ rw b (Memᴰ.tail (Memᴰ-insert x y ys (inr m)))
  | inr b ↦ rw b (Memᴰ.tail (Memᴰ.tail m))
]

pub Memᴰ-sort_strings : (x : Text) (xs : List Text) → Memᴰ x xs → Memᴰ x (sort_strings xs)
Memᴰ-sort_strings x [] m = absurd (Memᴰ.not-nil m)
Memᴰ-sort_strings x (y ∷ xs) (Memᴰ.head e) = Memᴰ-insert x y (sort_strings xs) (inl e)
Memᴰ-sort_strings x (y ∷ xs) (Memᴰ.tail m) =
    Memᴰ-insert x y (sort_strings xs) (inr (Memᴰ-sort_strings x xs m))

module _ {D : Type 0} (t : TypeSystem D) where
  -- A computed relation is another relation of the type.
  abbrev pub ComputedValid : Text → Text → Text → Type 0
  ComputedValid ty r c = (text_eq c r ≡ false) × (is_defined t ty c ≡ true)

  -- The tupleset of `x from y` is a relation of the type that is assigned directly, to a type that defines `x`.
  abbrev pub TuplesetValid : Text → Text × Text → Type 0
  TuplesetValid ty ttu =
      (d : Relation) × (get_relation t ty ttu.0 ≡ ok d)
      × (is_this d.rewrite ≡ true)
      × (any (λ ref. is_defined t ref.object_type ttu.1) d.directly_related ≡ true)

  abbrev RewriteValid : Text → Text → List Text → List (Text × Text) → Type 0
  RewriteValid ty r cs ttus = All (ComputedValid ty r) cs × All (TuplesetValid ty) ttus

  append-RewriteValid :
      (ty r : Text) (cs ds : List Text) (xs ys : List (Text × Text))
      → RewriteValid ty r cs xs
      → RewriteValid ty r ds ys
      → RewriteValid ty r (cs ++ ds) (xs ++ ys)
  append-RewriteValid ty r cs ds xs ys (h, k) (h', k') =
      (All-append (ComputedValid ty r) cs ds h h', All-append (TuplesetValid ty) xs ys k k')

  module _ (supported : is_schema_version_supported t.schema_version ≡ true) (ty : Text)
      (r : Text) where
    some-none : {e : TypesystemError} → ◌≡◌ {A = Option TypesystemError} (some e) none → ⊥
    some-none h = cc

    computed_valid_lem : (c : Text) → is_computed_valid t ty r c ≡ none → ComputedValid ty r c
    unfolding is_computed_valid
    computed_valid_lem c h = elim (Bool-cases (text_eq c r)) [
      | inl e ↦ absurd (some-none (rw (is_computed_valid, e) at h))
      | inr e ↦ elim (Bool-cases (is_defined t ty c)) [
        | inl k ↦ (e, k)
        | inr k ↦ absurd (some-none (rw (is_computed_valid, e, k) at h))
      ]
    ]

    tupleset_valid_lem : (y x : Text) → is_tupleset_valid t ty y x ≡ none → TuplesetValid ty (y, x)
    unfolding is_tupleset_valid
    tupleset_valid_lem y x h = elim (Checked-cases (get_relation t ty y)) [
      | inl (e, k) ↦ absurd (some-none (rw (is_tupleset_valid, k) at h))
      | inr (d, k) ↦
          let h' : tupleset_error t ty y x d ≡ none = rw (is_tupleset_valid, k) at h in
          elim (Bool-cases (is_this d.rewrite)) [
            | inr e ↦ absurd (some-none (rw e at h'))
            | inl e ↦
                elim (Bool-cases (any (λ ref. is_defined t ref.object_type x) d.directly_related)) [
                  | inl a ↦ (d, k, e, a)
                  | inr a ↦ absurd (some-none (rw (e, supported, a) at h'))
                ]
          ]
    ]

    mutual
      unfolding is_userset_rewrite_valid computed_relations flatten_userset

      pub rewrite_valid_lem :
          (u : Userset)
          → is_userset_rewrite_valid t ty r u ≡ none
          → RewriteValid ty r (computed_relations u) (flatten_userset u)
      rewrite_valid_lem unset h = absurd (some-none h)
      rewrite_valid_lem this h = (tt, tt)
      rewrite_valid_lem (computed_userset c) h = ((computed_valid_lem c h, tt), tt)
      rewrite_valid_lem (tuple_to_userset y x) h = (tt, (tupleset_valid_lem y x h, tt))
      rewrite_valid_lem (union us) h = children_valid_lem us h
      rewrite_valid_lem (intersection us) h = children_valid_lem us h
      rewrite_valid_lem (difference b s) h =
          let (h1, h2) =
            also-both (is_userset_rewrite_valid t ty r b) (is_userset_rewrite_valid t ty r s) h in
          append-RewriteValid ty r (computed_relations b) (computed_relations s) (flatten_userset b)
            (flatten_userset s) (rewrite_valid_lem b h1) (rewrite_valid_lem s h2)

      children_valid_lem :
          (us : Children)
          → are_children_valid t ty r us ≡ none
          → RewriteValid ty r (computed_children us) (flatten_children us)
      children_valid_lem leaf h = (tt, tt)
      children_valid_lem (child u us) h =
          let (h1, h2) =
            also-both (is_userset_rewrite_valid t ty r u) (are_children_valid t ty r us) h in
          append-RewriteValid ty r (computed_relations u) (computed_children us) (flatten_userset u)
            (flatten_children us) (rewrite_valid_lem u h1) (children_valid_lem us h2)
