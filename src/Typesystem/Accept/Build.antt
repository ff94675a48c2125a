-- ===== src/Typesystem/Accept/Build.antt =====
-- pkg/typesystem/typesystem.go: what is in the type system of a model without duplicate types.
use kengen.Base.{
  Text, text_eq, text_eq_iff, text_eq_refl, ◌≡◌, refl, sym, ap, subst, ◌∙◌, inl, inr, true, false,
  Option, none, some, List, [], ◌∷◌, map, foldl, Memᴰ, any, arith, Bool-cases,
}
use mathlib.Core.List.Memᴰ
use kengen.Typesystem.Model.{
  Userset, Relation, TypeDefinition, AuthorizationModel, TypeSystem, lookup, new_relation, add_type,
  new_without_graphs, or_nil,
}
use kengen.Typesystem.Restrictions.{contains_duplicate, contains_duplicate_type}
use kengen.Typesystem.Entrypoints.{relation_in}
use kengen.Typesystem.Entrypoints.Visits.{lookup-put}

abbrev names : List TypeDefinition → List Text
names tds = map (λ td. td.type_name) tds

unseen-ne :
    (x k : Text) (seen : List Text)
    → any (text_eq k) seen ≡ true
    → any (text_eq x) seen ≡ false
    → text_eq x k ≡ false
unseen-ne x k seen h new = elim (Bool-cases (text_eq x k)) [
  | inl e ↦
      let same = ap (λ z. any (text_eq z) seen) ((text_eq_iff x k).0 e) in
      absurd (refute (sym new ∙ same ∙ h))
  | inr e ↦ e
]
  where
    refute : false ≡ true → ⊥
    refute h = cc

module _ {D : Type 0} where
  -- A later type of another name leaves what is there.
  lookup-later :
      (tds : List TypeDefinition) (t : TypeSystem D) (k : Text) (seen : List Text)
      → any (text_eq k) seen ≡ true
      → contains_duplicate seen (names tds) ≡ false
      → (lookup k (foldl add_type t tds).relations ≡ lookup k t.relations)
        × (lookup k (foldl add_type t tds).type_definitions ≡ lookup k t.type_definitions)
  unfolding add_type contains_duplicate
  lookup-later [] t k seen h u = (refl, refl)
  lookup-later (td ∷ tds) t k seen h u =
      let new : any (text_eq td.type_name) seen ≡ false = ground (arith, u) in
      let (e, f) =
        lookup-later tds (add_type t td) k (td.type_name ∷ seen) (ground (arith, h))
          (ground (arith, u)) in
      let other = unseen-ne td.type_name k seen h new in
      (
        e
            ∙ lookup-put k td.type_name (map (new_relation td) td.relations) t.relations
            ∙ rw other refl,
        f ∙ lookup-put k td.type_name td t.type_definitions ∙ rw other refl,
      )

  lookup-each :
      (tds : List TypeDefinition) (t : TypeSystem D) (td : TypeDefinition) (seen : List Text)
      → contains_duplicate seen (names tds) ≡ false
      → Memᴰ td tds
      → (lookup td.type_name (foldl add_type t tds).relations
          ≡ some (map (new_relation td) td.relations))
        × (lookup td.type_name (foldl add_type t tds).type_definitions ≡ some td)
  unfolding add_type contains_duplicate
  lookup-each [] t td seen u m = absurd (Memᴰ.not-nil m)
  lookup-each (x ∷ tds) t td seen u (Memᴰ.tail m) =
      lookup-each tds (add_type t x) td (x.type_name ∷ seen) (ground (arith, u)) m
  lookup-each (x ∷ tds) t td seen u (Memᴰ.head e) =
      subst
        (λ z.
          (lookup z.type_name (foldl add_type (add_type t x) tds).relations
            ≡ some (map (new_relation z) z.relations))
          × (lookup z.type_name (foldl add_type (add_type t x) tds).type_definitions ≡ some z))
        (sym e) here
    where
      here :
          (lookup x.type_name (foldl add_type (add_type t x) tds).relations
            ≡ some (map (new_relation x) x.relations))
          × (lookup x.type_name (foldl add_type (add_type t x) tds).type_definitions ≡ some x)
      here =
          let (e, f) =
            lookup-later tds (add_type t x) x.type_name (x.type_name ∷ seen)
              (ground (arith, text_eq_refl x.type_name)) (ground (arith, u)) in
          (
            e
                ∙ lookup-put x.type_name x.type_name (map (new_relation x) x.relations) t.relations
                ∙ rw (text_eq_refl x.type_name) refl,
            f
                ∙ lookup-put x.type_name x.type_name x t.type_definitions
                ∙ rw (text_eq_refl x.type_name) refl,
          )

-- The relation that `newWithoutGraphs` makes of a rewrite.
abbrev pub relation_from : TypeDefinition → Text → Userset → Relation
relation_from td r u = record {
  name = r;
  rewrite = u;
  directly_related = or_nil (lookup r td.metadata);
}

lookup-new_relation :
    (td : TypeDefinition) (m : List (Text × Userset)) (r : Text) (u : Userset)
    → lookup r m ≡ some u
    → lookup r (map (new_relation td) m) ≡ some (relation_from td r u)
unfolding new_relation
lookup-new_relation td [] r u h = absurd (refute h)
  where
    refute : ◌≡◌ {A = Option Userset} none (some u) → ⊥
    refute h = cc
lookup-new_relation td ((j, b) ∷ m) r u h = elim (Bool-cases (text_eq j r)) [
  | inl e ↦
      let here : some b ≡ some u = rw e at h in
      rw e (
        ap some (
          ap (λ z. relation_from td z b) ((text_eq_iff j r).0 e)
          ∙ ap (relation_from td r) (some_inj here)))
  | inr e ↦ rw e (lookup-new_relation td m r u (rw e at h))
]
  where
    some_inj : {a c : Userset} → some a ≡ some c → a ≡ c
    some_inj h = cc

module _ {D : Type 0} (model : AuthorizationModel D)
    (unique : contains_duplicate_type model ≡ false) (td : TypeDefinition)
    (mem : Memᴰ td model.type_definitions) where
  built :
      (lookup td.type_name (new_without_graphs model).relations
        ≡ some (map (new_relation td) td.relations))
      × (lookup td.type_name (new_without_graphs model).type_definitions ≡ some td)
  unfolding new_without_graphs contains_duplicate_type
  built = lookup-each model.type_definitions _ td [] unique mem

  pub type_definition_in : lookup td.type_name (new_without_graphs model).type_definitions ≡ some td
  type_definition_in = built.1

  -- Each relation of a type is there, with its rewrite.
  pub relation_in-built :
      (r : Text) (u : Userset)
      → lookup r td.relations ≡ some u
      → relation_in (new_without_graphs model) td.type_name r ≡ some (relation_from td r u)
  relation_in-built r u h = rw built.0 (lookup-new_relation td td.relations r u h)
