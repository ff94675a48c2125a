-- ===== src/Typesystem/Cycles/Edges.antt =====
-- pkg/typesystem/typesystem.go: the computed relations that a rewrite names, and `hasCycle` within one rewrite.
use kengen.Base.{Text, ◌≡◌, refl, sym, ap, ◌∙◌, List, [], ◌∷◌, ◌++◌, Memᴰ, All, ◌≢◌, ◌⊎◌, inl, inr}
use kengen.Typesystem.Model.{
  Userset, unset, this, computed_userset, tuple_to_userset, union, intersection, difference,
  Children, leaf, child, Relation, TypeSystem,
}
use kengen.Typesystem.Lookup.{ok, get_relation}
use kengen.Typesystem.Cycles.{
  CycleResult, acyclic, cyclic, no_fuel, cycle_error, and_next, rewrite_cycle, children_cycle,
}

-- The relations of the same object that a rewrite names, from left to right.
unfoldable mutual
  pub computed_relations : Userset → List Text
  computed_relations unset = []
  computed_relations this = []
  computed_relations (tuple_to_userset y x) = []
  computed_relations (computed_userset c) = c ∷ []
  computed_relations (union us) = computed_children us
  computed_relations (intersection us) = computed_children us
  computed_relations (difference b s) = computed_relations b ++ computed_relations s

  pub computed_children : Children → List Text
  computed_children leaf = []
  computed_children (child u us) = computed_relations u ++ computed_children us

-- The results of a list of relations, up to the first that is not acyclic.
abbrev pub run_each : (Text → CycleResult) → List Text → CycleResult
run_each jump [] = acyclic
run_each jump (c ∷ cs) = and_next (jump c) (run_each jump cs)

and_next_assoc : (a b c : CycleResult) → and_next (and_next a b) c ≡ and_next a (and_next b c)
and_next_assoc acyclic b c = refl
and_next_assoc cyclic b c = refl
and_next_assoc no_fuel b c = refl
and_next_assoc (cycle_error e) b c = refl

and_next-acyclic : (a : CycleResult) → and_next a acyclic ≡ a
and_next-acyclic acyclic = refl
and_next-acyclic cyclic = refl
and_next-acyclic no_fuel = refl
and_next-acyclic (cycle_error e) = refl

run_each-append :
    (jump : Text → CycleResult) (cs ds : List Text)
    → run_each jump (cs ++ ds) ≡ and_next (run_each jump cs) (run_each jump ds)
run_each-append jump [] ds = refl
run_each-append jump (c ∷ cs) ds =
    ap (and_next (jump c)) (run_each-append jump cs ds)
    ∙ sym (and_next_assoc (jump c) (run_each jump cs) (run_each jump ds))

mutual
  unfolding rewrite_cycle computed_relations

  pub rewrite_cycle_lem :
      (jump : Text → CycleResult) (u : Userset)
      → rewrite_cycle jump u ≡ run_each jump (computed_relations u)
  rewrite_cycle_lem jump unset = refl
  rewrite_cycle_lem jump this = refl
  rewrite_cycle_lem jump (tuple_to_userset y x) = refl
  rewrite_cycle_lem jump (computed_userset c) = sym (and_next-acyclic (jump c))
  rewrite_cycle_lem jump (union us) = children_cycle_lem jump us
  rewrite_cycle_lem jump (intersection us) = children_cycle_lem jump us
  rewrite_cycle_lem jump (difference b s) =
      rw (rewrite_cycle_lem jump b, rewrite_cycle_lem jump s)
        (sym (run_each-append jump (computed_relations b) (computed_relations s)))

  children_cycle_lem :
      (jump : Text → CycleResult) (us : Children)
      → children_cycle jump us ≡ run_each jump (computed_children us)
  children_cycle_lem jump leaf = refl
  children_cycle_lem jump (child u us) =
      rw (rewrite_cycle_lem jump u, children_cycle_lem jump us)
        (sym (run_each-append jump (computed_relations u) (computed_children us)))

and_next-both : (a b : CycleResult) → and_next a b ≡ acyclic → (a ≡ acyclic) × (b ≡ acyclic)
and_next-both acyclic b h = (refl, h)
and_next-both cyclic b h = (h, cc)
and_next-both no_fuel b h = (h, cc)
and_next-both (cycle_error e) b h = (h, cc)

and_next-one : (a b : CycleResult) → ((a ≡ acyclic) × (and_next a b ≡ b)) ⊎ (and_next a b ≡ a)
and_next-one acyclic b = inl (refl, refl)
and_next-one cyclic b = inr refl
and_next-one no_fuel b = inr refl
and_next-one (cycle_error e) b = inr refl

pub run_each-acyclic :
    (jump : Text → CycleResult) (cs : List Text)
    → run_each jump cs ≡ acyclic
    → All (λ c. jump c ≡ acyclic) cs
run_each-acyclic jump [] h = tt
run_each-acyclic jump (c ∷ cs) h =
    let (first, others) = and_next-both (jump c) (run_each jump cs) h in
    (first, run_each-acyclic jump cs others)

-- A result that is not acyclic is that of one of the relations.
pub run_each-one :
    (jump : Text → CycleResult) (cs : List Text)
    → run_each jump cs ≢ acyclic
    → (c : Text) × Memᴰ c cs × (jump c ≡ run_each jump cs)
run_each-one jump [] h = absurd (h refl)
run_each-one jump (c ∷ cs) h = elim (and_next-one (jump c) (run_each jump cs)) [
  | inr here ↦ (c, Memᴰ.head refl, sym here)
  | inl (e, there) ↦
      let (d, m, k) = run_each-one jump cs (λ a. h (there ∙ a)) in (d, Memᴰ.tail m, k ∙ sym there)
]

module _ {D : Type 0} (t : TypeSystem D) (object_type : Text) where
  -- The rewrite of relation `r` names the relation `s`.
  abbrev pub Edge : Text → Text → Type 0
  Edge r s =
      (d : Relation) × (get_relation t object_type r ≡ ok d) × Memᴰ s (computed_relations d.rewrite)

  -- Relation `s` is reached from `r` through one computed relation or several.
  pub data Reaches : Text → Text → Type 0 where
    edge : {r s : Text} → Edge r s → Reaches r s
    step : {r s u : Text} → Edge r s → Reaches s u → Reaches r u

  pub Reaches-trans : {r s u : Text} → Reaches r s → Reaches s u → Reaches r u
  Reaches-trans (edge e) k = step e k
  Reaches-trans (step e h) k = step e (Reaches-trans h k)

pub acyclic_or : (r : CycleResult) → (r ≡ acyclic) ⊎ (r ≢ acyclic)
acyclic_or acyclic = inl refl
acyclic_or cyclic = inr (λ h. cc)
acyclic_or no_fuel = inr (λ h. cc)
acyclic_or (cycle_error e) = inr (λ h. cc)
