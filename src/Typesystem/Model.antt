-- ===== src/Typesystem/Model.antt =====
-- pkg/typesystem/typesystem.go: the parts of an authorization model, and `newWithoutGraphs`.
-- A Go map is a list of keys and values, each key once. `D` is the type of a compiled condition.
use kengen.Base.{
  Text, text, text_eq, Bool, true, false, ◌||◌, Option, none, some, List, [], ◌∷◌, ◌++◌, map, foldl,
  if◌then◌else◌,
}

-- `openfgav1.Userset`; `unset` is a nil userset, or one with no rewrite. A tupleset and a computed userset are the
-- names of their relations.
mutual
  pub data Userset : Type 0 where
    unset this : Userset
    computed_userset : Text → Userset
    tuple_to_userset : (tupleset : Text) (computed : Text) → Userset
    union intersection : Children → Userset
    difference : (base : Userset) (subtract : Userset) → Userset

  pub data Children : Type 0 where
    leaf : Children
    child : Userset → Children → Children

abbrev pub children : Children → List Userset
children leaf = []
children (child u us) = u ∷ children us

-- The oneof of a relation reference; `nil_wildcard` is a wildcard that is set to nil.
pub data RelationOrWildcard : Type 0 where
  neither wildcard nil_wildcard : RelationOrWildcard
  of_relation : Text → RelationOrWildcard

-- `openfgav1.RelationReference`
pub record RelationReference : Type 0 where
  pub object_type : Text
  pub target : RelationOrWildcard
  pub condition : Text

-- `GetRelation`
abbrev pub relation_of : RelationOrWildcard → Text
relation_of (of_relation r) = r
relation_of _ = []

-- `GetWildcard() != nil`
abbrev pub has_wildcard : RelationOrWildcard → Bool
has_wildcard wildcard = true
has_wildcard _ = false

-- `GetRelationOrWildcard() != nil`
abbrev pub has_target : RelationOrWildcard → Bool
has_target neither = false
has_target _ = true

-- `openfgav1.Relation`
pub record Relation : Type 0 where
  pub name : Text
  pub rewrite : Userset
  pub directly_related : List RelationReference

-- `openfgav1.TypeDefinition`; `metadata` is the directly related types of each relation that has metadata.
pub record TypeDefinition : Type 0 where
  pub type_name : Text
  pub relations : List (Text × Userset)
  pub metadata : List (Text × List RelationReference)

-- `openfgav1.AuthorizationModel`
pub record AuthorizationModel (D : Type 0) : Type 0 where
  pub id : Text
  pub schema_version : Text
  pub type_definitions : List TypeDefinition
  pub conditions : List (Text × D)

pub record TypeSystem (D : Type 0) : Type 0 where
  pub type_definitions : List (Text × TypeDefinition)
  pub relations : List (Text × List (Text × Relation))
  pub conditions : List (Text × D)
  pub ttu_relations : List (Text × List (Text × List (Text × Text)))
  pub model_id : Text
  pub schema_version : Text

module _ {ℓ} {A : Type ℓ} where
  -- `m[key]` with its second result
  abbrev pub lookup : Text → List (Text × A) → Option A
  lookup key [] = none
  lookup key ((k, v) ∷ m) = let more = lookup key m in if text_eq k key then some v else more

  -- `m[key] = value`
  abbrev pub put : Text → A → List (Text × A) → List (Text × A)
  put key value [] = (key, value) ∷ []
  put key value ((k, v) ∷ m) =
      let more = put key value m in if text_eq k key then (key, value) ∷ m else (k, v) ∷ more

-- `flattenUserset`
unfoldable mutual
  pub flatten_userset : Userset → List (Text × Text)
  flatten_userset unset = []
  flatten_userset this = []
  flatten_userset (computed_userset r) = []
  flatten_userset (tuple_to_userset t c) = (t, c) ∷ []
  flatten_userset (union us) = flatten_children us
  flatten_userset (intersection us) = flatten_children us
  flatten_userset (difference b s) = flatten_userset b ++ flatten_userset s

  pub flatten_children : Children → List (Text × Text)
  flatten_children leaf = []
  flatten_children (child u us) = flatten_userset u ++ flatten_children us

abbrev pub or_nil : Option (List RelationReference) → List RelationReference
or_nil none = []
or_nil (some refs) = refs

unfoldable pub new_relation : TypeDefinition → Text × Userset → Text × Relation
new_relation td (relation, rewrite) = (
  relation,
  record {
    name = relation;
    rewrite = rewrite;
    directly_related = or_nil (lookup relation td.metadata);
  },
)

-- The body of the loop over the type definitions.
unfoldable pub add_type : {D : Type 0} → TypeSystem D → TypeDefinition → TypeSystem D
unfolding new_relation flatten_userset
add_type t td = record t {
  type_definitions = put td.type_name td t.type_definitions;
  relations = put td.type_name (map (new_relation td) td.relations) t.relations;
  ttu_relations =
      put td.type_name (map (λ r. (r.0, flatten_userset r.1)) td.relations) t.ttu_relations;
}

-- `newWithoutGraphs`; the conditions come compiled.
unfoldable pub new_without_graphs : {D : Type 0} → AuthorizationModel D → TypeSystem D
unfolding add_type
new_without_graphs model =
    foldl add_type
      (record {
        type_definitions = [];
        relations = [];
        conditions = model.conditions;
        ttu_relations = [];
        model_id = model.id;
        schema_version = model.schema_version;
      })
      model.type_definitions

-- `IsSchemaVersionSupported`
abbrev pub is_schema_version_supported : Text → Bool
is_schema_version_supported version = text_eq version (text "1.1") || text_eq version (text "1.2")
