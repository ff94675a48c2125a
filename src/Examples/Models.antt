-- ===== src/Examples/Models.antt =====
-- Models of pkg/typesystem, and tuples validated against one.
use kengen.Base.{
  ℕ, ◌≤◌, Text, text, text_eq, ◌≡◌, ◌↔◌, ◌⊎◌, inl, inr, refl, Bool, true, false, Option, none, some,
  List, [], ◌∷◌, Memᴰ, any, length, arith,
}
use kengen.Tuple.Key.{TupleKey}
use kengen.Typesystem.Model.{
  Userset, this, computed_userset, union, intersection, leaf, child, RelationReference, neither,
  wildcard, Relation, TypeDefinition, AuthorizationModel, TypeSystem, lookup, new_without_graphs,
  is_schema_version_supported,
}
use kengen.Typesystem.Lookup.{TypesystemError, ok}
use kengen.Typesystem.Cycles.{cyclic, has_cycle}
use kengen.Typesystem.Cycles.Fuel.{type_relations, Reports, has_cycle-Reports}
use kengen.Typesystem.Entrypoints.{entered, relation_in, has_entrypoints}
use kengen.Typesystem.Entrypoints.Entry.{Entry}
use kengen.Typesystem.Entrypoints.Sound.{has_entrypoints-Entry}
use kengen.Typesystem.Entrypoints.Enough.{Ends, all_relations}
use kengen.Typesystem.Entrypoints.Ends.{has_entrypoints-Ends}
use kengen.Typesystem.Accept.{new_and_validate}
use kengen.Typesystem.Accept.Accepted.{Sound, new_and_validate-Sound}
use kengen.Validation.Struct.{
  Value, boolean, string_value, Fields, no_fields, field, contains_forbidden_chars, validate_struct,
  texts_struct, validate_struct_iff,
}
use kengen.Validation.Tuples.{validate_tuple_for_write}
use kengen.Validation.Accepted.{Writable, validate_tuple_for_write-Writable}

abbrev of_users : RelationReference
of_users = record { object_type = text "user"; target = neither; condition = [] }

abbrev of_everyone : RelationReference
of_everyone = record { object_type = text "user"; target = wildcard; condition = [] }

abbrev user_type : TypeDefinition
user_type = record { type_name = text "user"; relations = []; metadata = [] }

-- define editor: [user]; define viewer: [user, user:*] or editor
abbrev doc_type : TypeDefinition
doc_type = record {
  type_name = text "doc";
  relations =
      (text "editor", this)
      ∷ (text "viewer", union (child this (child (computed_userset (text "editor")) leaf)))
      ∷ [];
  metadata = (text "editor", of_users ∷ []) ∷ (text "viewer", of_users ∷ of_everyone ∷ []) ∷ [];
}

abbrev pub docs : AuthorizationModel ℕ
docs = record {
  id = text "m";
  schema_version = text "1.1";
  type_definitions = user_type ∷ doc_type ∷ [];
  conditions = [];
}

abbrev condition_name_of : ℕ → Text
condition_name_of d = []

abbrev compiles : ℕ → Option TypesystemError
compiles d = none

abbrev pub graphs : AuthorizationModel ℕ → Option TypesystemError
graphs m = none

docs_accepted :
    new_and_validate condition_name_of compiles graphs docs ≡ ok (new_without_graphs docs)
unfolding new_and_validate new_without_graphs text_eq kengen.Base.text_lt
docs_accepted = refl

abbrev pub doc_system : TypeSystem ℕ
doc_system = new_without_graphs docs

abbrev viewer_rewrite : Userset
viewer_rewrite = union (child this (child (computed_userset (text "editor")) leaf))

viewer_found : lookup (text "viewer") doc_type.relations ≡ some viewer_rewrite
unfolding text_eq
viewer_found = refl

new_and_validate-Sound_example : Sound doc_system (text "doc") (text "viewer") viewer_rewrite
new_and_validate-Sound_example =
    new_and_validate-Sound condition_name_of compiles graphs docs doc_system doc_type
      (text "viewer") viewer_rewrite docs_accepted (Memᴰ.tail (Memᴰ.head refl)) viewer_found

-- define base: [user]; define c: base; define d: c; define s: c and d; define q: s
abbrev stale_type : TypeDefinition
stale_type = record {
  type_name = text "doc";
  relations =
      (text "base", this)
      ∷ (text "c", computed_userset (text "base"))
      ∷ (text "d", computed_userset (text "c"))
      ∷ (
        text "s",
        intersection
            (child (computed_userset (text "c")) (child (computed_userset (text "d")) leaf)),
      )
      ∷ (text "q", computed_userset (text "s"))
      ∷ [];
  metadata = (text "base", of_users ∷ []) ∷ [];
}

abbrev stale : TypeSystem ℕ
stale = new_without_graphs (record {
  id = text "m";
  schema_version = text "1.1";
  type_definitions = user_type ∷ stale_type ∷ [];
  conditions = [];
})

abbrev s_relation : Relation
s_relation = record {
  name = text "s";
  rewrite =
      intersection (child (computed_userset (text "c")) (child (computed_userset (text "d")) leaf));
  directly_related = [];
}

-- The relation `s` has an entrypoint, but `q`, which is `s`, is said to have none and to be in a loop.
s_entered :
    has_entrypoints stale 5 [] (text "doc") (text "s") s_relation.rewrite ≡ entered true false []
unfolding has_entrypoints new_without_graphs text_eq
s_entered = refl

q_refused :
    has_entrypoints stale 5 [] (text "doc") (text "q") (computed_userset (text "s"))
    ≡ entered false true []
unfolding has_entrypoints new_without_graphs text_eq
q_refused = refl

s_there : relation_in stale (text "doc") (text "s") ≡ some s_relation
unfolding new_without_graphs text_eq
s_there = refl

has_entrypoints-Entry_example : Entry stale (text "doc") (text "s") s_relation.rewrite
has_entrypoints-Entry_example =
    has_entrypoints-Entry stale 5 (text "doc") (text "s") s_relation false [] s_there s_entered

five : length (all_relations stale.relations) ≤ 5
unfolding new_without_graphs text_eq
five = omega arith

has_entrypoints-Ends_example :
    Ends (has_entrypoints stale 5 [] (text "doc") (text "s") s_relation.rewrite)
has_entrypoints-Ends_example =
    has_entrypoints-Ends stale 5 (text "doc") (text "s") s_relation s_there five

-- define a: b; define b: a
abbrev looping : TypeSystem ℕ
looping = new_without_graphs (record {
  id = text "m";
  schema_version = text "1.1";
  type_definitions =
      record {
        type_name = text "doc";
        relations =
            (text "a", computed_userset (text "b")) ∷ (text "b", computed_userset (text "a")) ∷ [];
        metadata = [];
      }
      ∷ [];
  conditions = [];
})

looping_found : has_cycle looping (text "doc") 2 (text "a") ≡ cyclic
unfolding has_cycle new_without_graphs text_eq
looping_found = refl

two : length (type_relations looping (text "doc")) ≤ 2
unfolding new_without_graphs text_eq
two = omega arith

has_cycle-Reports_example :
    Reports looping (text "doc") (text "a") (has_cycle looping (text "doc") 2 (text "a"))
has_cycle-Reports_example = has_cycle-Reports looping (text "doc") 2 (text "a") two

abbrev context : Fields
context =
    field (text "region") (string_value (text "eu")) (field (text "admin") (boolean true) no_fields)

validate_struct_iff_example :
    (validate_struct context ≡ none) ↔ (any contains_forbidden_chars (texts_struct context) ≡ false)
validate_struct_iff_example = validate_struct_iff context

abbrev pub anyone : TupleKey Fields
anyone = record {
  object = text "doc:1";
  relation = text "viewer";
  user = text "user:*";
  condition = none;
}

abbrev pub no_parameters : ℕ → List (Text × ℕ)
no_parameters d = []

abbrev pub converts : ℕ → Value → Bool
converts p v = true

anyone_valid : validate_tuple_for_write no_parameters converts doc_system anyone ≡ none
unfolding validate_tuple_for_write new_without_graphs text_eq kengen.Tuple.Valid.is_valid_user_id
anyone_valid = refl

supported : is_schema_version_supported doc_system.schema_version ≡ true
unfolding new_without_graphs text_eq
supported = refl

validate_tuple_for_write-Writable_example : Writable no_parameters converts doc_system anyone
validate_tuple_for_write-Writable_example =
    validate_tuple_for_write-Writable no_parameters converts doc_system anyone supported
      anyone_valid
