-- ===== src/Commands/Validated.antt =====
-- pkg/server/commands/write.go over pkg/typesystem and internal/validation: which tuples `WriteCommand` hands to the
-- datastore.
use mathlib.Core.Option.{none-ne-some}
use kengen.Base.{
  ℕ, ◌<◌, Text, ◌≡◌, ◌⊎◌, refl, sym, subst, Bool, true, Option, none, some, List, [], ◌∷◌, foldl,
  length, arith, All, Bool-cases, Option-cases, inl, inr,
}
use kengen.Tuple.Key.{TupleKey, TupleKeyWithoutCondition}
use kengen.Storage.Record.{TupleWriteOption, Result, ok, Result-cases}
use kengen.Typesystem.Model.{
  AuthorizationModel, TypeDefinition, TypeSystem, add_type, new_without_graphs,
  is_schema_version_supported,
}
use kengen.Typesystem.Lookup.{TypesystemError}
use kengen.Validation.Struct.{Value, Fields}
use kengen.Validation.Tuples.{ValidationError, validate_tuple_for_write}
use kengen.Validation.Accepted.{Writable, validate_tuple_for_write-Writable}
use kengen.Commands.Write.{
  WriteError, WriteRequest, validate_write, validate_writes, validate_against_model,
  validate_write_request, first_failure, execute,
}

-- An error of the type system or of the validation of a tuple.
abbrev pub Refusal : Type 0
Refusal = TypesystemError ⊎ ValidationError

abbrev pub model_supported : {D : Type 0} → AuthorizationModel D → Bool
model_supported m = is_schema_version_supported m.schema_version

abbrev pub or_graphs :
    {D : Type 0} → AuthorizationModel D → Option TypesystemError → Refusal ⊎ TypeSystem D
or_graphs m none = inr (new_without_graphs m)
or_graphs m (some e) = inl (inl e)

-- `typesystem.New`; the package that builds the graphs is a parameter.
abbrev pub new_typesystem :
    {D : Type 0}
    → (AuthorizationModel D → Option TypesystemError)
    → AuthorizationModel D
    → Refusal ⊎ TypeSystem D
new_typesystem attach_graphs m = or_graphs m (attach_graphs m)

abbrev pub as_refusal : Option ValidationError → Option Refusal
as_refusal none = none
as_refusal (some e) = some (inr e)

schema_version-foldl :
    {D : Type 0} (tds : List TypeDefinition) (t : TypeSystem D)
    → (foldl add_type t tds).schema_version ≡ t.schema_version
unfolding add_type
schema_version-foldl [] t = refl
schema_version-foldl (td ∷ tds) t = schema_version-foldl tds (add_type t td)

All-map :
    {A : Type 0} {P Q : A → Type 0} (f : (x : A) → P x → Q x) (xs : List A) → All P xs → All Q xs
All-map f [] a = tt
All-map f (x ∷ xs) a = (f x a.0, All-map f xs a.1)

module _ {D P S : Type 0} (parameters : D → List (Text × P)) (convert : P → Value → Bool)
    (attach_graphs : AuthorizationModel D → Option TypesystemError)
    (read_model : Text → Text → Result Fields (AuthorizationModel D))
    (context_size : Option Fields → ℕ) (context_byte_limit max_tuples : ℕ)
    (datastore_write : S
      → Text
      → List TupleKeyWithoutCondition
      → List (TupleKey Fields)
      → List TupleWriteOption
      → Result Fields S) where
  abbrev pub valid_tuple : TypeSystem D → TupleKey Fields → Option Refusal
  valid_tuple t tk = as_refusal (validate_tuple_for_write parameters convert t tk)

  abbrev pub run_write : S → WriteRequest Fields → WriteError Fields Refusal ⊎ S
  run_write =
      execute read_model model_supported (new_typesystem attach_graphs) valid_tuple context_size
        context_byte_limit max_tuples datastore_write

  abbrev against : WriteRequest Fields → Option (WriteError Fields Refusal)
  against =
      validate_against_model read_model model_supported (new_typesystem attach_graphs) valid_tuple
        context_size context_byte_limit max_tuples datastore_write

  passed_model :
      (s s' : S) (req : WriteRequest Fields)
      → 0 < length req.writes
      → run_write s req ≡ inr s'
      → against req ≡ none
  unfolding execute validate_write_request first_failure
  passed_model s s' req some_writes h = ground arith

  abbrev of_write : TypeSystem D → TupleKey Fields → Option (WriteError Fields Refusal)
  of_write =
      validate_write read_model model_supported (new_typesystem attach_graphs) valid_tuple
        context_size context_byte_limit max_tuples datastore_write

  abbrev of_writes : TypeSystem D → List (TupleKey Fields) → Option (WriteError Fields Refusal)
  of_writes =
      validate_writes read_model model_supported (new_typesystem attach_graphs) valid_tuple
        context_size context_byte_limit max_tuples datastore_write

  abbrev Valid : TypeSystem D → TupleKey Fields → Type 0
  Valid t tk = validate_tuple_for_write parameters convert t tk ≡ none

  of_write-Valid : (t : TypeSystem D) (tk : TupleKey Fields) → of_write t tk ≡ none → Valid t tk
  unfolding validate_write
  of_write-Valid t tk h = elim (Option-cases (validate_tuple_for_write parameters convert t tk)) [
    | inl k ↦ k
    | inr (e, k) ↦ absurd (none-ne-some _ (sym (rw (validate_write, k) at h)))
  ]

  of_writes-Valid :
      (t : TypeSystem D) (tks : List (TupleKey Fields)) → of_writes t tks ≡ none → All (Valid t) tks
  unfolding validate_writes
  of_writes-Valid t [] h = tt
  of_writes-Valid t (tk ∷ tks) h = elim (Option-cases (of_write t tk)) [
    | inl k ↦ (of_write-Valid t tk k, of_writes-Valid t tks (rw (validate_writes, k) at h))
    | inr (e, k) ↦ absurd (none-ne-some _ (sym (rw (validate_writes, k) at h)))
  ]

  supported_system :
      (m : AuthorizationModel D)
      → model_supported m ≡ true
      → is_schema_version_supported (new_without_graphs m).schema_version ≡ true
  unfolding new_without_graphs
  supported_system m h =
      subst (λ v. is_schema_version_supported v ≡ true)
        (sym (schema_version-foldl m.type_definitions _)) h

  against-Valid :
      (req : WriteRequest Fields)
      → against req ≡ none
      → (m : AuthorizationModel D) × (read_model req.store_id req.authorization_model_id ≡ ok m)
        × (model_supported m ≡ true)
        × All (Valid (new_without_graphs m)) req.writes
  unfolding validate_against_model
  against-Valid req h = elim (Result-cases (read_model req.store_id req.authorization_model_id)) [
    | inr (e, k) ↦ absurd (ground arith)
    | inl (m, k) ↦ elim (Bool-cases (model_supported m)) [
      | inr n ↦ absurd (none-ne-some _ (sym (rw (validate_against_model, k, n) at h)))
      | inl y ↦ elim (Option-cases (attach_graphs m)) [
        | inr (e, g) ↦ absurd (none-ne-some _ (sym (rw (validate_against_model, k, y, g) at h)))
        | inl g ↦ (
          m,
          k,
          y,
          of_writes-Valid (new_without_graphs m) req.writes
              (rw (validate_against_model, k, y, g) at h),
        )
      ]
    ]
  ]

  -- If `Execute` ends well for a request that writes some tuple, then the datastore has the model of the request, of a
  -- supported schema version, and each tuple of the request may be written in the type system of that model: its object
  -- is valid, some type restriction of its relation has the tuple's condition and allows the shape of its user, and
  -- where the relation is a tupleset the user is one object.
  pub run_write-Writable :
      (s s' : S) (req : WriteRequest Fields)
      → 0 < length req.writes
      → run_write s req ≡ inr s'
      → (m : AuthorizationModel D) × (read_model req.store_id req.authorization_model_id ≡ ok m)
        × (model_supported m ≡ true)
        × All (Writable parameters convert (new_without_graphs m)) req.writes
  run_write-Writable s s' req some_writes h =
      let (m, k, y, valid) = against-Valid req (passed_model s s' req some_writes h) in
      (
        m,
        k,
        y,
        All-map
            (λ tk v.
              validate_tuple_for_write-Writable parameters convert (new_without_graphs m) tk
                (supported_system m y) v)
            req.writes valid,
      )
