-- ===== src/Typesystem/Cycles/Sound.antt =====
-- pkg/typesystem/typesystem.go: what `HasCycle` finds.
use kengen.Base.{
  ℕ, zero, suc, Text, text_eq, text_eq_refl, ◌≡◌, refl, sym, ◌∙◌, subst, ◌⊎◌, inl, inr, false, List,
  [], ◌∷◌, any, arith, All, All-mem, Bool-cases, any-Memᴰ, append-injective, if◌then◌else◌,
}
use kengen.Tuple.Split.{to_object_relation_string}
use kengen.Typesystem.Model.{Userset, Relation, TypeSystem}
use kengen.Typesystem.Lookup.{TypesystemError, Checked, ok, err, get_relation}
use kengen.Typesystem.Cycles.{CycleResult, acyclic, cyclic, no_fuel, cycle_error, cycle_from}
use kengen.Typesystem.Cycles.Edges.{
  computed_relations, run_each, rewrite_cycle_lem, run_each-acyclic, run_each-one, Edge, Reaches,
  edge, step, Reaches-trans, acyclic_or,
}

pub Checked-cases :
    {A : Type 0} (r : Checked A) → ((e : TypesystemError) × (r ≡ err e)) ⊎ ((a : A) × (r ≡ ok a))
Checked-cases (err e) = inl (e, refl)
Checked-cases (ok a) = inr (a, refl)

module _ {D : Type 0} (t : TypeSystem D) (object_type : Text) where
  abbrev pub key : Text → Text
  key r = to_object_relation_string object_type r

  pub key-injective : {r s : Text} → key r ≡ key s → r ≡ s
  key-injective h = cons_lem (append-injective object_type h)
    where
      cons_lem : {a b : ℕ} {x y : Text} → a ∷ x ≡ b ∷ y → x ≡ y
      cons_lem h = cc

  -- What `hasCycle` does at a computed relation.
  abbrev pub jump : ℕ → List Text → Text → CycleResult
  jump n visited c =
      if any (text_eq (key c)) visited then cyclic else elim (get_relation t object_type c) [
        | err e ↦ cycle_error e
        | ok r ↦ cycle_from t object_type n visited c r.rewrite
      ]

  pub cycle_from_lem :
      (n : ℕ) (visited : List Text) (r : Text) (u : Userset)
      → cycle_from t object_type (suc n) visited r u
        ≡ run_each (jump n (key r ∷ visited)) (computed_relations u)
  unfolding cycle_from
  cycle_from_lem n visited r u = rewrite_cycle_lem (jump n (key r ∷ visited)) u

  -- A relation that is not visited is looked up.
  pub jump-acyclic :
      (n : ℕ) (visited : List Text) (c : Text)
      → jump n visited c ≡ acyclic
      → (any (text_eq (key c)) visited ≡ false)
        × ((d : Relation)
            → get_relation t object_type c ≡ ok d
            → cycle_from t object_type n visited c d.rewrite ≡ acyclic)
  jump-acyclic n visited c h = elim (Bool-cases (any (text_eq (key c)) visited)) [
    | inl e ↦ absurd (by_cc (rw e at h))
    | inr e ↦ (e, λ d k. rw (e, k) at h)
  ]
    where
      by_cc : cyclic ≡ acyclic → ⊥
      by_cc h = cc

  -- The result of a relation, if it is there, is acyclic.
  abbrev Clear : ℕ → List Text → Text → Type 0
  Clear n visited r =
      (d : Relation)
      → get_relation t object_type r ≡ ok d
      → cycle_from t object_type n visited r d.rewrite ≡ acyclic

  Clear-zero :
      (visited : List Text) (r s : Text) → Clear zero visited r → Edge t object_type r s → ⊥
  unfolding cycle_from
  Clear-zero visited r s h (d, e, m) = refute (h d e)
    where
      refute : no_fuel ≡ acyclic → ⊥
      refute h = cc

  Clear-Edge :
      (n : ℕ) (visited : List Text) (r s : Text)
      → Clear (suc n) visited r
      → Edge t object_type r s
      → (any (text_eq (key s)) (key r ∷ visited) ≡ false) × Clear n (key r ∷ visited) s
  Clear-Edge n visited r s h (d, e, m) = jump-acyclic n (key r ∷ visited) s (
      All-mem (λ c. jump n (key r ∷ visited) c ≡ acyclic) (computed_relations d.rewrite)
        (run_each-acyclic (jump n (key r ∷ visited)) (computed_relations d.rewrite)
          (sym (cycle_from_lem n visited r d.rewrite) ∙ h d e))
        m)

  -- Where no cycle is found, no relation that is reached has been visited.
  Clear-unvisited :
      (n : ℕ) (visited : List Text) (r s : Text)
      → Clear n visited r
      → Reaches t object_type r s
      → any (text_eq (key s)) (key r ∷ visited) ≡ false
  Clear-unvisited zero visited r s h (edge e) = absurd (Clear-zero visited r s h e)
  Clear-unvisited zero visited r s h (step {s = c} e p) = absurd (Clear-zero visited r c h e)
  Clear-unvisited (suc n) visited r s h (edge e) = (Clear-Edge n visited r s h e).0
  Clear-unvisited (suc n) visited r s h (step {s = c} e p) =
      let (u, k) = Clear-Edge n visited r c h e in
      ground (arith, Clear-unvisited n (key r ∷ visited) c s k p)

  Clear-self :
      (n : ℕ) (visited : List Text) (r : Text) → Clear n visited r → Reaches t object_type r r → ⊥
  Clear-self n visited r h p =
      ground (arith, Clear-unvisited n visited r r h p, text_eq_refl (key r))

  -- Where no cycle is found, no relation that is reached reaches itself.
  pub Clear-acyclic :
      (n : ℕ) (visited : List Text) (r s : Text)
      → Clear n visited r
      → Reaches t object_type r s
      → Reaches t object_type s s
      → ⊥
  Clear-acyclic zero visited r s h (edge e) loop = Clear-zero visited r s h e
  Clear-acyclic zero visited r s h (step {s = c} e p) loop = Clear-zero visited r c h e
  Clear-acyclic (suc n) visited r s h (edge e) loop =
      Clear-self n (key r ∷ visited) s (Clear-Edge n visited r s h e).1 loop
  Clear-acyclic (suc n) visited r s h (step {s = c} e p) loop =
      Clear-acyclic n (key r ∷ visited) c s (Clear-Edge n visited r c h e).1 p loop

  -- What is visited reaches the relation `r`.
  abbrev Above : List Text → Text → Type 0
  Above visited r = All (λ k. (s : Text) × (k ≡ key s) × Reaches t object_type s r) visited

  Above-Edge :
      (visited : List Text) (r s : Text)
      → Edge t object_type r s
      → Above visited r
      → Above (key r ∷ visited) s
  Above-Edge visited r s e h = ((r, refl, edge e), extend visited h)
    where
      extend : (v : List Text) → Above v r → Above v s
      extend [] h = tt
      extend (k ∷ v) ((u, e', p), h) = ((u, e', Reaches-trans t object_type p (edge e)), extend v h)

  -- A relation below `r` whose lookup fails.
  abbrev pub Fails : Text → TypesystemError → Type 0
  Fails r x = (s : Text) × Reaches t object_type r s × (get_relation t object_type s ≡ err x)

  abbrev pub Loops : Text → Type 0
  Loops r = (s : Text) × Reaches t object_type r s × Reaches t object_type s s

  -- What a result that is not acyclic says of the relation it is about.
  abbrev pub Found : CycleResult → Text → Type 0
  Found acyclic r = Unit
  Found cyclic r = Loops r
  Found no_fuel r = Unit
  Found (cycle_error x) r = Fails r x

  Found-Edge : (c : CycleResult) (r s : Text) → Edge t object_type r s → Found c s → Found c r
  Found-Edge acyclic r s e h = tt
  Found-Edge cyclic r s e (u, p, loop) = (u, step e p, loop)
  Found-Edge no_fuel r s e h = tt
  Found-Edge (cycle_error x) r s e (u, p, h) = (u, step e p, h)

  jump-Found :
      (n : ℕ) (visited : List Text) (r s : Text)
      → Edge t object_type r s
      → Above (key r ∷ visited) s
      → ((d : Relation)
          → get_relation t object_type s ≡ ok d
          → Found (cycle_from t object_type n (key r ∷ visited) s d.rewrite) s)
      → Found (jump n (key r ∷ visited) s) r
  jump-Found n visited r s e h below = elim (Bool-cases (any (text_eq (key s)) (key r ∷ visited))) [
    | inl seen ↦
        let (u, k, p) =
          All-mem (λ k. (u : Text) × (k ≡ key u) × Reaches t object_type u s) (key r ∷ visited) h
            (any-Memᴰ (key s) (key r ∷ visited) seen) in
        rw seen (s, edge e, subst (λ v. Reaches t object_type v s) (sym (key-injective k)) p)
    | inr new ↦ elim (Checked-cases (get_relation t object_type s)) [
      | inl (x, k) ↦ rw (new, k) (s, edge e, k)
      | inr (d, k) ↦
          rw (new, k)
            (Found-Edge (cycle_from t object_type n (key r ∷ visited) s d.rewrite) r s e
              (below d k))
    ]
  ]

  pub cycle_from-Found :
      (n : ℕ) (visited : List Text) (r : Text) (d : Relation)
      → get_relation t object_type r ≡ ok d
      → Above visited r
      → Found (cycle_from t object_type n visited r d.rewrite) r
  unfolding cycle_from
  cycle_from-Found zero visited r d e h = tt
  cycle_from-Found (suc n) visited r d e h =
      let js = run_each (jump n (key r ∷ visited)) (computed_relations d.rewrite) in
      let found : Found js r = elim (acyclic_or js) [
        | inl a ↦ subst (λ c. Found c r) (sym a) tt
        | inr ne ↦
            let (s, m, k) =
              run_each-one (jump n (key r ∷ visited)) (computed_relations d.rewrite) ne in
            subst (λ c. Found c r) k
              (jump-Found n visited r s (d, e, m) (Above-Edge visited r s (d, e, m) h)
                (λ d' e'.
                  cycle_from-Found n (key r ∷ visited) s d' e'
                    (Above-Edge visited r s (d, e, m) h)))
      ] in
      subst (λ c. Found c r) (sym (cycle_from_lem n visited r d.rewrite)) found
