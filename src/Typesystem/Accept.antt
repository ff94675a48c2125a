-- ===== src/Typesystem/Accept.antt =====
-- pkg/typesystem/typesystem.go: `validateRelation` and `NewAndValidate`. The graphs that it attaches are built by a
-- package that is a parameter. The fuel of the two searches is the count of the relations that they can visit.
pub mod Build
pub mod Valid
pub mod Accepted
use kengen.Base.{
  ℕ, Text, text_eq, text_lt, Bool, true, false, not, Option, none, some, List, [], ◌∷◌, map, length,
  if◌then◌else◌,
}
use kengen.Typesystem.Model.{
  Userset, unset, TypeDefinition, AuthorizationModel, TypeSystem, lookup, new_without_graphs,
  is_schema_version_supported,
}
use kengen.Typesystem.Lookup.{
  TypesystemError, invalid_schema_version, duplicate_types, no_entrypoints, no_entrypoints_loop,
  cycle, too_few_operands, nil_rewrite, undefined_entry, no_result, Checked, ok, err,
}
use kengen.Typesystem.Rewrites.{also, is_userset_rewrite_valid}
use kengen.Typesystem.Restrictions.{
  contains_duplicate_type, each_passes, validate_names, validate_type_restrictions,
  validate_conditions,
}
use kengen.Typesystem.Cycles.{CycleResult, acyclic, cyclic, no_fuel, cycle_error, has_cycle}
use kengen.Typesystem.Cycles.Fuel.{type_relations}
use kengen.Typesystem.Entrypoints.{
  EntryResult, entered, undefined_relation, too_few_children, unknown_rewrite, has_entrypoints,
}
use kengen.Typesystem.Entrypoints.Enough.{all_relations}

-- `sort.Strings`
abbrev pub insert : Text → List Text → List Text
insert x [] = x ∷ []
insert x (y ∷ ys) = let more = insert x ys in if text_lt y x then y ∷ more else x ∷ y ∷ ys

abbrev pub sort_strings : List Text → List Text
sort_strings [] = []
sort_strings (x ∷ xs) = insert x (sort_strings xs)

-- What `validateRelation` makes of the results of `hasEntrypoints` and of `HasCycle`.
abbrev pub entry_verdict : Text → Text → EntryResult → Option TypesystemError
entry_verdict ty r (entered true loop v) = none
entry_verdict ty r (entered false true v) = some (no_entrypoints_loop ty r)
entry_verdict ty r (entered false false v) = some (no_entrypoints ty r)
entry_verdict ty r (undefined_relation ty' r') = some (undefined_entry ty' r')
entry_verdict ty r too_few_children = some too_few_operands
entry_verdict ty r unknown_rewrite = some nil_rewrite
entry_verdict ty r EntryResult.no_fuel = some no_result

abbrev pub cycle_verdict : Text → Text → CycleResult → Option TypesystemError
cycle_verdict ty r acyclic = none
cycle_verdict ty r cyclic = some (cycle ty r)
cycle_verdict ty r (cycle_error e) = some e
cycle_verdict ty r no_fuel = some no_result

-- `relationMap[relationName]`
abbrev pub or_unset : Option Userset → Userset
or_unset none = unset
or_unset (some u) = u

module _ {D : Type 0} (t : TypeSystem D) where
  abbrev pub entry_result : Text → Text → Userset → EntryResult
  entry_result type_name relation rewrite =
      has_entrypoints t (length (all_relations t.relations)) [] type_name relation rewrite

  abbrev pub cycle_result : Text → Text → CycleResult
  cycle_result type_name relation =
      has_cycle t type_name (length (type_relations t type_name)) relation

  -- `validateRelation`
  unfoldable pub validate_relation : Text → Text → Userset → Option TypesystemError
  unfolding is_userset_rewrite_valid validate_type_restrictions has_entrypoints has_cycle
  validate_relation type_name relation rewrite =
      also (is_userset_rewrite_valid t type_name relation rewrite) (
        also (validate_type_restrictions t type_name relation) (
          also (entry_verdict type_name relation (entry_result type_name relation rewrite))
            (cycle_verdict type_name relation (cycle_result type_name relation))))

  -- The loop over the relations of a type.
  unfoldable pub validate_relations : TypeDefinition → Option TypesystemError
  unfolding validate_relation
  validate_relations td =
      each_passes (λ r. validate_relation td.type_name r (or_unset (lookup r td.relations)))
        (sort_strings (map (λ e. e.0) td.relations))

  abbrev pub validate_type : Option TypeDefinition → Option TypesystemError
  validate_type none = none
  validate_type (some td) = validate_relations td

  -- The loop over the types.
  unfoldable pub validate_types : Option TypesystemError
  unfolding validate_relations
  validate_types =
      each_passes (λ ty. validate_type (lookup ty t.type_definitions))
        (sort_strings (map (λ e. e.0) t.type_definitions))

abbrev pub unless : {A : Type 0} → Option TypesystemError → A → Checked A
unless (some e) a = err e
unless none a = ok a

module _ {D : Type 0} (name_of : D → Text) (compile : D → Option TypesystemError)
    (attach_graphs : AuthorizationModel D → Option TypesystemError) where
  -- `NewAndValidate`
  unfoldable pub new_and_validate : AuthorizationModel D → Checked (TypeSystem D)
  unfolding new_without_graphs contains_duplicate_type validate_names validate_types
      validate_conditions
  new_and_validate model =
      let t = new_without_graphs model in
      if not (is_schema_version_supported t.schema_version)
      then err invalid_schema_version
      else if contains_duplicate_type model
      then err duplicate_types
      else unless
          (also (validate_names t) (
            also (validate_types t)
              (also (validate_conditions t name_of compile) (attach_graphs model))))
          t
