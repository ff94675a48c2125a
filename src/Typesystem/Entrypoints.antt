-- ===== src/Typesystem/Entrypoints.antt =====
-- pkg/typesystem/typesystem.go: `hasEntrypoints`. `visitedRelations` is a map of maps: a call clones the outer map and
-- shares the inner ones, so a type that the caller has not visited is dropped when the call returns, and what is
-- written under one that it has visited stays.
pub mod Visits
pub mod Entry
pub mod Spec
pub mod Steps
pub mod Sound
pub mod Enough
pub mod StepsEnd
pub mod Ends
use kengen.Base.{
  ℕ, zero, suc, Text, text_eq, Bool, true, false, not, ◌||◌, Option, none, some, List, [], ◌∷◌, any,
  filter, length, ltb, if◌then◌else◌,
}
use kengen.Typesystem.Model.{
  Userset, unset, this, computed_userset, tuple_to_userset, union, intersection, difference,
  Children, leaf, child, children, RelationReference, relation_of, has_wildcard, has_target,
  Relation, TypeSystem, lookup, put,
}
use kengen.Typesystem.Lookup.{or_no_relations}

abbrev pub Visited : Type 0
Visited = List (Text × List (Text × Bool))

abbrev pub or_no_visits : Option (List (Text × Bool)) → List (Text × Bool)
or_no_visits none = []
or_no_visits (some m) = m

-- `v[typeName][relationName]`
unfoldable pub value : Visited → Text → Text → Option Bool
value v type_name relation = lookup relation (or_no_visits (lookup type_name v))

-- `v[typeName][relationName] = b`, with a new inner map for a type that is not there
unfoldable pub visit : Text → Text → Bool → Visited → Visited
visit type_name relation b v = put type_name (put relation b (or_no_visits (lookup type_name v))) v

-- What the caller, whose map is `v`, sees of the map `v'` of a call.
unfoldable pub leave : Visited → Visited → Visited
leave v v' = filter (λ e. any (λ k. text_eq k.0 e.0) v) v'

-- The two results, with the visits that the caller sees. The error is that of an undefined relation, of an operator
-- with fewer than two children, or of a nil rewrite; `no_fuel` is that the fuel is out.
pub data EntryResult : Type 0 where
  entered : (has : Bool) (loop : Bool) (visits : Visited) → EntryResult
  undefined_relation : (type_name : Text) (relation : Text) → EntryResult
  too_few_children unknown_rewrite no_fuel : EntryResult

abbrev pub left_with : Visited → EntryResult → EntryResult
left_with v (entered has loop v') = entered has loop (leave v v')
left_with v (undefined_relation ty r) = undefined_relation ty r
left_with v too_few_children = too_few_children
left_with v unknown_rewrite = unknown_rewrite
left_with v no_fuel = no_fuel

-- What follows a call: `found` if it has an entrypoint, `more` if it has none.
abbrev pub after :
    EntryResult → (Bool → Visited → EntryResult) → (Bool → Visited → EntryResult) → EntryResult
after (entered true loop v) found more = found loop v
after (entered false loop v) found more = more loop v
after (undefined_relation ty r) found more = undefined_relation ty r
after too_few_children found more = too_few_children
after unknown_rewrite found more = unknown_rewrite
after no_fuel found more = no_fuel

abbrev pub Jump : Type 0
Jump = Visited → Text → Text → Userset → EntryResult

module _ {D : Type 0} (t : TypeSystem D) where
  -- `typedefs[typeName][relationName]`
  abbrev pub relation_in : Text → Text → Option Relation
  relation_in type_name relation = lookup relation (or_no_relations (lookup type_name t.relations))

  module _ (jump : Jump) (type_name : Text) (relation : Text) where
    -- The loop over the assignable types of a relation.
    unfoldable pub this_loop : Visited → List RelationReference → EntryResult
    unfolding value visit
    this_loop v [] = entered false false v
    this_loop v (ref ∷ refs) =
        let next = λ (loop : Bool) (v' : Visited). this_loop v' refs in
        if not (has_target ref.target) || has_wildcard ref.target
        then entered true false (visit type_name relation true v)
        else elim (relation_in ref.object_type (relation_of ref.target)) [
          | none ↦ undefined_relation ref.object_type (relation_of ref.target)
          | some r ↦ elim (value v ref.object_type (relation_of ref.target)) [
            | some b ↦ next false v
            | none ↦
                after (jump v ref.object_type (relation_of ref.target) r.rewrite)
                  (λ loop v'. entered true false v') next
          ]
        ]

    -- The loop over the types of a tupleset.
    unfoldable pub tupleset_loop : Text → Visited → List RelationReference → EntryResult
    unfolding value
    tupleset_loop computed v [] = entered false false v
    tupleset_loop computed v (ref ∷ refs) =
        let next = λ (loop : Bool) (v' : Visited). tupleset_loop computed v' refs in
        elim (relation_in ref.object_type computed) [
          | none ↦ next false v
          | some r ↦ elim (value v ref.object_type computed) [
            | some true ↦ entered true false v
            | some false ↦ next false v
            | none ↦
                after (jump v ref.object_type computed r.rewrite) (λ loop v'. entered true false v')
                  next
          ]
        ]

    unfoldable pub tupleset_entry : Text → Text → Visited → EntryResult
    unfolding tupleset_loop
    tupleset_entry tupleset computed v = elim (relation_in type_name tupleset) [
      | none ↦ undefined_relation type_name tupleset
      | some r ↦ tupleset_loop computed v r.directly_related
    ]

    unfoldable pub computed_entry : Text → Visited → EntryResult
    unfolding value
    computed_entry computed v = elim (relation_in type_name computed) [
      | none ↦ undefined_relation type_name computed
      | some r ↦ elim (value v type_name computed) [
        | some b ↦ entered b true v
        | none ↦ jump v type_name computed r.rewrite
      ]
    ]

    -- `hasEntrypoints` within one rewrite of the relation `r`, which it looks up at each level; `jump` is what it does
    -- at another relation.
    unfoldable mutual
      unfolding visit leave this_loop tupleset_entry computed_entry

      pub entry_at : Relation → Userset → Visited → EntryResult
      entry_at r unset v = unknown_rewrite
      entry_at r this v =
          left_with v (this_loop (visit type_name relation false v) r.directly_related)
      entry_at r (computed_userset c) v =
          left_with v (computed_entry c (visit type_name relation false v))
      entry_at r (tuple_to_userset y x) v =
          left_with v (tupleset_entry y x (visit type_name relation false v))
      entry_at r (union us) v =
          let rest = union_loop r us false (leave v (visit type_name relation false v)) in
          if ltb (length (children us)) 2 then too_few_children else rest
      entry_at r (intersection us) v =
          let rest = intersection_loop r us (leave v (visit type_name relation false v)) in
          if ltb (length (children us)) 2 then too_few_children else rest
      entry_at r (difference b s) v =
          let subtract = entry_at r s in
          after (entry_at r b (leave v (visit type_name relation false v)))
            (λ loop v'. after (subtract v') (λ loop' v''. entered true false v'') (entered false))
            (entered false)

      pub union_loop : Relation → Children → Bool → Visited → EntryResult
      union_loop r leaf loop v = entered false loop v
      union_loop r (child u us) loop v =
          let rest = union_loop r us in
          after (entry_at r u v) (λ l v'. entered true false v') (λ l v'. rest (loop || l) v')

      pub intersection_loop : Relation → Children → Visited → EntryResult
      intersection_loop r leaf v = entered true false v
      intersection_loop r (child u us) v =
          let rest = intersection_loop r us in
          after (entry_at r u v) (λ l v'. rest v') (entered false)

    unfoldable pub entry_rewrite : Userset → Visited → EntryResult
    unfolding entry_at
    entry_rewrite u v = elim (relation_in type_name relation) [
      | none ↦ undefined_relation type_name relation
      | some r ↦ entry_at r u v
    ]

  unfoldable pub has_entrypoints : ℕ → Jump
  unfolding entry_rewrite
  has_entrypoints zero v type_name relation u = no_fuel
  has_entrypoints (suc n) v type_name relation u =
      entry_rewrite (has_entrypoints n) type_name relation u v
