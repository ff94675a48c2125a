-- ===== src/Typesystem/Accept/Accepted.antt =====
-- pkg/typesystem/typesystem.go: what a model has that `NewAndValidate` accepts.
use kengen.Base.{
  Text, ◌≡◌, refl, sym, ap, subst, ◌∙◌, inl, inr, Bool, true, false, Option, none, some, List, [],
  map, Memᴰ, length, arith, All, Bool-cases,
}
use kengen.Typesystem.Model.{
  Userset, Relation, TypeDefinition, AuthorizationModel, TypeSystem, lookup, new_without_graphs,
  is_schema_version_supported, flatten_userset,
}
use kengen.Typesystem.Lookup.{TypesystemError, Checked, ok, err}
use kengen.Typesystem.Rewrites.{also, is_userset_rewrite_valid}
use kengen.Typesystem.Restrictions.{
  contains_duplicate_type, validate_names, validate_type_restrictions, validate_conditions,
}
use kengen.Typesystem.Cycles.{CycleResult, acyclic, cyclic, no_fuel, cycle_error}
use kengen.Typesystem.Cycles.Edges.{computed_relations}
use kengen.Typesystem.Cycles.Sound.{Loops}
use kengen.Typesystem.Cycles.Fuel.{Reports, has_cycle-Reports, type_relations}
use kengen.Typesystem.Entrypoints.{
  EntryResult, entered, undefined_relation, too_few_children, unknown_rewrite, relation_in,
}
use kengen.Typesystem.Entrypoints.Visits.{lookup-Memᴰ}
use kengen.Typesystem.Entrypoints.Entry.{Entry}
use kengen.Typesystem.Entrypoints.Sound.{has_entrypoints-Entry}
use kengen.Typesystem.Entrypoints.Enough.{all_relations}
use kengen.Typesystem.Accept.{
  sort_strings, entry_verdict, cycle_verdict, or_unset, entry_result, cycle_result,
  validate_relation, validate_relations, validate_type, validate_types, unless, new_and_validate,
}
use kengen.Typesystem.Accept.Build.{relation_from, type_definition_in, relation_in-built}
use kengen.Typesystem.Accept.Valid.{
  also-both, each_passes-Memᴰ, Memᴰ-sort_strings, ComputedValid, TuplesetValid, rewrite_valid_lem,
}

entry_verdict-none :
    (ty r : Text) (res : EntryResult)
    → entry_verdict ty r res ≡ none
    → (loop : Bool) × (v : List (Text × List (Text × Bool))) × (res ≡ entered true loop v)
entry_verdict-none ty r (entered true loop v) h = (loop, v, refl)
entry_verdict-none ty r (entered false true v) h = (true, v, cc)
entry_verdict-none ty r (entered false false v) h = (false, v, cc)
entry_verdict-none ty r (undefined_relation ty' r') h = (true, [], cc)
entry_verdict-none ty r too_few_children h = (true, [], cc)
entry_verdict-none ty r unknown_rewrite h = (true, [], cc)
entry_verdict-none ty r EntryResult.no_fuel h = (true, [], cc)

cycle_verdict-none :
    (ty r : Text) (res : CycleResult) → cycle_verdict ty r res ≡ none → res ≡ acyclic
cycle_verdict-none ty r acyclic h = refl
cycle_verdict-none ty r cyclic h = cc
cycle_verdict-none ty r (cycle_error e) h = cc
cycle_verdict-none ty r no_fuel h = cc

module _ {D : Type 0} (t : TypeSystem D) where
  -- A relation that leads to some object, does not lead back to itself through computed relations, and whose rewrite
  -- names relations that are there.
  abbrev pub Sound : Text → Text → Userset → Type 0
  Sound ty r u =
      Entry t ty r u
      × (Loops t ty r → ⊥)
      × All (ComputedValid t ty r) (computed_relations u)
      × All (TuplesetValid t ty) (flatten_userset u)

  validate_relation-Sound :
      (ty r : Text) (s : Relation)
      → is_schema_version_supported t.schema_version ≡ true
      → relation_in t ty r ≡ some s
      → validate_relation t ty r s.rewrite ≡ none
      → Sound ty r s.rewrite
  unfolding validate_relation
  validate_relation-Sound ty r s supported e h =
      let u = s.rewrite in
      let (h1, h') = also-both (is_userset_rewrite_valid t ty r u) _ h in
      let (h2, h'') = also-both (validate_type_restrictions t ty r) _ h' in
      let (h3, h4) =
        also-both (entry_verdict ty r (entry_result t ty r u))
          (cycle_verdict ty r (cycle_result t ty r)) h'' in
      let (loop, v, k) = entry_verdict-none ty r (entry_result t ty r u) h3 in
      let (cs, ttus) = rewrite_valid_lem t supported ty r u h1 in
      (
        has_entrypoints-Entry t (length (all_relations t.relations)) ty r s loop v e k,
        subst (Reports t ty r) (cycle_verdict-none ty r (cycle_result t ty r) h4)
            (has_cycle-Reports t ty (length (type_relations t ty)) r (omega arith)),
        cs,
        ttus,
      )

module _ {D : Type 0} (name_of : D → Text) (compile : D → Option TypesystemError)
    (attach_graphs : AuthorizationModel D → Option TypesystemError)
    (model : AuthorizationModel D) where
  unless-ok :
      {A : Type 0} (e : Option TypesystemError) (a b : A) → unless e a ≡ ok b → (e ≡ none) × (a ≡ b)
  unless-ok none a b h = (refl, cc)
  unless-ok (some e) a b h = (cc, cc)

  refute : {A : Type 0} {e : TypesystemError} {a : A} → ◌≡◌ {A = Checked A} (err e) (ok a) → ⊥
  refute h = cc

  passed :
      (t : TypeSystem D)
      → new_and_validate name_of compile attach_graphs model ≡ ok t
      → (t ≡ new_without_graphs model)
        × (is_schema_version_supported t.schema_version ≡ true)
        × (contains_duplicate_type model ≡ false)
        × (validate_names t ≡ none)
        × (validate_types t ≡ none)
  unfolding new_and_validate
  passed t h =
      let t0 : TypeSystem D = new_without_graphs model in
      let checks : Option TypesystemError = also (validate_names t0) (
        also (validate_types t0)
          (also (validate_conditions t0 name_of compile) (attach_graphs model))) in
      elim (Bool-cases (is_schema_version_supported t0.schema_version)) [
        | inr e ↦ absurd (refute (rw (new_and_validate, e) at h))
        | inl supported ↦ elim (Bool-cases (contains_duplicate_type model)) [
          | inl e ↦ absurd (refute (rw (new_and_validate, supported, e) at h))
          | inr unique ↦
              let (none_failed, same) =
                unless-ok checks t0 t (rw (new_and_validate, supported, unique) at h) in
              let (names, others) = also-both (validate_names t0) _ none_failed in
              let (types, rest) = also-both (validate_types t0) _ others in
              subst
                (λ z.
                  (z ≡ t0)
                  × (is_schema_version_supported z.schema_version ≡ true)
                  × (contains_duplicate_type model ≡ false)
                  × (validate_names z ≡ none)
                  × (validate_types z ≡ none))
                same (refl, supported, unique, names, types)
        ]
      ]

  type_relations_passed :
      (t : TypeSystem D) (td : TypeDefinition) (r : Text) (u : Userset)
      → validate_types t ≡ none
      → lookup td.type_name t.type_definitions ≡ some td
      → lookup r td.relations ≡ some u
      → validate_relation t td.type_name r u ≡ none
  unfolding validate_types validate_relations
  type_relations_passed t td r u h there e =
      let of_type : validate_type t (lookup td.type_name t.type_definitions) ≡ none =
        each_passes-Memᴰ (λ ty. validate_type t (lookup ty t.type_definitions))
          (sort_strings (map (λ e. e.0) t.type_definitions)) h
          (Memᴰ-sort_strings td.type_name (map (λ e. e.0) t.type_definitions)
            (lookup-Memᴰ td.type_name t.type_definitions td there)) in
      let all_passed : validate_relations t td ≡ none =
        sym (ap (validate_type t) there) ∙ of_type in
      sym (ap (λ z. validate_relation t td.type_name r (or_unset z)) e)
      ∙ each_passes-Memᴰ
          (λ x. validate_relation t td.type_name x (or_unset (lookup x td.relations)))
          (sort_strings (map (λ e. e.0) td.relations)) all_passed
          (Memᴰ-sort_strings r (map (λ e. e.0) td.relations) (lookup-Memᴰ r td.relations u e))

  -- If `NewAndValidate` accepts a model, then each relation of each of its types leads to an object of some type, is not
  -- reached from itself and reaches no cycle through computed relations, names as computed relations only other relations
  -- of its type, and as tuplesets only relations that are assigned directly, to some type that defines the relation
  -- looked up there.
  pub new_and_validate-Sound :
      (t : TypeSystem D) (td : TypeDefinition) (r : Text) (u : Userset)
      → new_and_validate name_of compile attach_graphs model ≡ ok t
      → Memᴰ td model.type_definitions
      → lookup r td.relations ≡ some u
      → Sound t td.type_name r u
  new_and_validate-Sound t td r u h m e =
      let (same, supported, unique, names, types) = passed t h in
      let there =
        ap (λ z. lookup td.type_name z.type_definitions) same
        ∙ type_definition_in model unique td m in
      validate_relation-Sound t td.type_name r (relation_from td r u) supported
        (ap (λ z. relation_in z td.type_name r) same ∙ relation_in-built model unique td m r u e)
        (type_relations_passed t td r u types there e)
