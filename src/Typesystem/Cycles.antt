-- ===== src/Typesystem/Cycles.antt =====
-- pkg/typesystem/typesystem.go: `HasCycle`.
pub mod Edges
pub mod Sound
pub mod Fuel
use kengen.Base.{ℕ, zero, suc, Text, text_eq, List, [], ◌∷◌, ◌++◌, any, length, if◌then◌else◌}
use kengen.Tuple.Split.{to_object_relation_string}
use kengen.Typesystem.Model.{
  Userset, unset, this, computed_userset, tuple_to_userset, union, intersection, difference,
  Children, leaf, child, Relation, TypeSystem,
}
use kengen.Typesystem.Lookup.{TypesystemError, Checked, ok, err, get_relation}

-- The two results of `hasCycle` in one; `no_fuel` is that the fuel is out.
pub data CycleResult : Type 0 where
  acyclic cyclic no_fuel : CycleResult
  cycle_error : TypesystemError → CycleResult

-- The loop over the children: the first that is not acyclic.
abbrev pub and_next : CycleResult → CycleResult → CycleResult
and_next acyclic next = next
and_next cyclic next = cyclic
and_next no_fuel next = no_fuel
and_next (cycle_error e) next = cycle_error e

-- `hasCycle` within one rewrite; `jump` is what it does at a computed relation.
unfoldable mutual
  pub rewrite_cycle : (Text → CycleResult) → Userset → CycleResult
  rewrite_cycle jump unset = acyclic
  rewrite_cycle jump this = acyclic
  rewrite_cycle jump (tuple_to_userset y x) = acyclic
  rewrite_cycle jump (computed_userset c) = jump c
  rewrite_cycle jump (union us) = children_cycle jump us
  rewrite_cycle jump (intersection us) = children_cycle jump us
  rewrite_cycle jump (difference b s) = and_next (rewrite_cycle jump b) (rewrite_cycle jump s)

  pub children_cycle : (Text → CycleResult) → Children → CycleResult
  children_cycle jump leaf = acyclic
  children_cycle jump (child u us) = and_next (rewrite_cycle jump u) (children_cycle jump us)

module _ {D : Type 0} (t : TypeSystem D) (object_type : Text) where
  -- `hasCycle`. A child gets a copy of `visited` that holds the relation, which it then adds again.
  unfoldable pub cycle_from : ℕ → List Text → Text → Userset → CycleResult
  unfolding rewrite_cycle get_relation
  cycle_from zero visited relation rewrite = no_fuel
  cycle_from (suc n) visited relation rewrite =
      let visited' = to_object_relation_string object_type relation ∷ visited in
      let deeper = cycle_from n visited' in
      rewrite_cycle
        (λ c.
          if any (text_eq (to_object_relation_string object_type c)) visited'
          then cyclic
          else elim (get_relation t object_type c) [
            | err e ↦ cycle_error e
            | ok r ↦ deeper c r.rewrite
          ])
        rewrite

  -- `HasCycle`
  unfoldable pub has_cycle : ℕ → Text → CycleResult
  unfolding cycle_from get_relation
  has_cycle fuel relation = elim (get_relation t object_type relation) [
    | err e ↦ cycle_error e
    | ok r ↦ cycle_from fuel [] relation r.rewrite
  ]
