-- ===== src/Typesystem/Cycles/Fuel.antt =====
-- pkg/typesystem/typesystem.go: `HasCycle` ends, since each relation is visited once on a path.
use kengen.Base.{
  ℕ, zero, suc, ◌≤◌, ◌<◌, Text, text_eq, text_eq_refl, ◌≡◌, refl, sym, ◌∙◌, subst, ◌≢◌, ◌⊎◌, inl,
  inr, Bool, false, not, List, [], ◌∷◌, map, Memᴰ, any, filter, length, arith, Bool-cases,
  Option-cases, length-filter_lt,
}
use kengen.Typesystem.Model.{Relation, TypeSystem, lookup}
use kengen.Typesystem.Entrypoints.Visits.{lookup-Memᴰ}
use kengen.Typesystem.Lookup.{
  TypesystemError, Checked, ok, err, get_relations, get_relation, or_no_relations,
}
use kengen.Typesystem.Cycles.{
  CycleResult, acyclic, cyclic, no_fuel, cycle_error, cycle_from, has_cycle,
}
use kengen.Typesystem.Cycles.Edges.{computed_relations, run_each, run_each-one}
use kengen.Typesystem.Cycles.Sound.{
  Checked-cases, key, jump, cycle_from_lem, Found, Fails, Loops, cycle_from-Found, Clear-acyclic,
}

module _ {D : Type 0} (t : TypeSystem D) (object_type : Text) where
  -- The relations of the type.
  abbrev pub type_relations : List (Text × Relation)
  type_relations = or_no_relations (lookup object_type t.relations)

  abbrev pub names : List Text
  names = map (λ e. e.0) type_relations

  pub get_relation-Memᴰ :
      (r : Text) (d : Relation) → get_relation t object_type r ≡ ok d → Memᴰ r names
  unfolding get_relation get_relations
  get_relation-Memᴰ r d h = elim (Option-cases (lookup object_type t.type_definitions)) [
    | inl e ↦ ground (arith, e)
    | inr (td, e) ↦ elim (Option-cases (lookup r type_relations)) [
      | inl k ↦ ground (arith, e, k)
      | inr (d', k) ↦ lookup-Memᴰ r type_relations d' k
    ]
  ]

  abbrev unseen : List Text → Text → Bool
  unseen visited r = not (any (text_eq (key t object_type r)) visited)

  -- The count of the relations that are not visited.
  abbrev left : List Text → ℕ
  left visited = length (filter (unseen visited) names)

  left-visit :
      (visited : List Text) (r : Text)
      → Memᴰ r names
      → any (text_eq (key t object_type r)) visited ≡ false
      → left (key t object_type r ∷ visited) < left visited
  left-visit visited r m h =
      length-filter_lt (unseen visited) (unseen (key t object_type r ∷ visited)) names
        (λ y. ground arith) m (ground (arith, h))
        (ground (arith, text_eq_refl (key t object_type r)))

  jump-enough :
      (n : ℕ) (visited : List Text) (s : Text)
      → ((d : Relation)
          → get_relation t object_type s ≡ ok d
          → any (text_eq (key t object_type s)) visited ≡ false
          → cycle_from t object_type n visited s d.rewrite ≢ no_fuel)
      → jump t object_type n visited s ≢ no_fuel
  jump-enough n visited s below h =
      elim (Bool-cases (any (text_eq (key t object_type s)) visited)) [
        | inl e ↦ refute (rw e at h)
        | inr e ↦ elim (Checked-cases (get_relation t object_type s)) [
          | inl (x, k) ↦ refute_error (rw (e, k) at h)
          | inr (d, k) ↦ below d k e (rw (e, k) at h)
        ]
      ]
    where
      refute : cyclic ≡ no_fuel → ⊥
      refute h = cc

      refute_error : {x : TypesystemError} → cycle_error x ≡ no_fuel → ⊥
      refute_error h = cc

  cycle_from-enough :
      (n : ℕ) (visited : List Text) (r : Text) (d : Relation)
      → get_relation t object_type r ≡ ok d
      → any (text_eq (key t object_type r)) visited ≡ false
      → left visited ≤ n
      → cycle_from t object_type n visited r d.rewrite ≢ no_fuel
  cycle_from-enough zero visited r d e new small h =
      omega (arith, left-visit visited r (get_relation-Memᴰ r d e) new)
  cycle_from-enough (suc n) visited r d e new small h =
      let k = key t object_type r in
      let out : run_each (jump t object_type n (k ∷ visited)) (computed_relations d.rewrite)
          ≡ no_fuel =
        sym (cycle_from_lem t object_type n visited r d.rewrite) ∙ h in
      let (s, m, j) =
        run_each-one (jump t object_type n (k ∷ visited)) (computed_relations d.rewrite)
          (λ a. refute (sym a ∙ out)) in
      jump-enough n (k ∷ visited) s
        (λ d' e' new'.
          cycle_from-enough n (k ∷ visited) s d' e' new'
            (omega (arith, left-visit visited r (get_relation-Memᴰ r d e) new)))
        (j ∙ out)
    where
      refute : acyclic ≡ no_fuel → ⊥
      refute h = cc

  -- What the result of `HasCycle` says of a relation: it has no cycle below it, it has one, or it or a relation below
  -- it cannot be looked up.
  abbrev pub Reports : Text → CycleResult → Type 0
  Reports r acyclic = Loops t object_type r → ⊥
  Reports r cyclic = Loops t object_type r
  Reports r no_fuel = ⊥
  Reports r (cycle_error x) = (get_relation t object_type r ≡ err x) ⊎ Fails t object_type r x

  reports :
      (c : CycleResult) (r : Text)
      → c ≢ no_fuel
      → Found t object_type c r
      → (c ≡ acyclic → Loops t object_type r → ⊥)
      → Reports r c
  reports acyclic r h f a = a refl
  reports cyclic r h f a = f
  reports no_fuel r h f a = h refl
  reports (cycle_error x) r h f a = inr f

  left-nil : left [] ≤ length type_relations
  left-nil = all_left type_relations
    where
      all_left :
          (rs : List (Text × Relation))
          → length (filter (unseen []) (map (λ e. e.0) rs)) ≤ length rs
      all_left [] = omega arith
      all_left (e ∷ rs) = omega (arith, all_left rs)

  -- With at least as much fuel as the type has relations, `HasCycle` on a relation answers: if it says that there is no
  -- cycle, then no relation that the given one reaches through computed relations reaches itself; if it says that there is
  -- one, then some relation that the given one reaches does; and an error is that of the given relation's lookup, or of the
  -- lookup of a relation that it reaches.
  pub has_cycle-Reports :
      (fuel : ℕ) (r : Text)
      → length type_relations ≤ fuel
      → Reports r (has_cycle t object_type fuel r)
  unfolding has_cycle
  has_cycle-Reports fuel r enough = elim (Checked-cases (get_relation t object_type r)) [
    | inl (x, e) ↦ rw (has_cycle, e) (inl e)
    | inr (d, e) ↦
        rw (has_cycle, e)
          (reports (cycle_from t object_type fuel [] r d.rewrite) r
            (cycle_from-enough fuel [] r d e refl (omega (arith, left-nil)))
            (cycle_from-Found t object_type fuel [] r d e tt)
            (λ a l.
              Clear-acyclic t object_type fuel [] r l.0
                (λ d' e'.
                  subst (λ z. cycle_from t object_type fuel [] r z.rewrite ≡ acyclic)
                    (same (sym e ∙ e')) a)
                l.1 l.2))
  ]
    where
      same : {a b : Relation} → ◌≡◌ {A = Checked Relation} (ok a) (ok b) → a ≡ b
      same h = cc
