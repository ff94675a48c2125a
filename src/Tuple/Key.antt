-- ===== src/Tuple/Key.antt =====
-- pkg/tuple/tuple.go: the tuple key, its constructors and conversions, and the sort order.
-- The protobuf messages that hold an object, a relation and a user alone are one record here.
-- The type of a condition's context (a protobuf struct) is the parameter `C`.
use kengen.Base.{
  Text, text, text_eq, text_lt, Bool, true, false, not, ◌&&◌, ◌||◌, Option, none, some, List, map,
  if◌then◌else◌,
}

pub record TupleKeyWithoutCondition : Type 0 where
  pub object : Text
  pub relation : Text
  pub user : Text

-- `openfgav1.RelationshipCondition`
pub record RelationshipCondition (C : Type 0) : Type 0 where
  pub name : Text
  pub context : Option C  -- a pointer, which may be nil

pub record TupleKey (C : Type 0) : Type 0 where
  pub object : Text
  pub relation : Text
  pub user : Text
  pub condition : Option (RelationshipCondition C)

-- `GetContext` of a condition that may be nil
abbrev pub condition_context : {C : Type 0} → Option (RelationshipCondition C) → Option C
condition_context none = none
condition_context (some c) = c.context

-- `GetName` of a condition that may be nil
abbrev pub condition_name : {C : Type 0} → Option (RelationshipCondition C) → Text
condition_name none = text ""
condition_name (some c) = c.name

abbrev pub tuple_key_to_tuple_key_without_condition :
    {C : Type 0} → TupleKey C → TupleKeyWithoutCondition
tuple_key_to_tuple_key_without_condition tk = record {
  object = tk.object;
  relation = tk.relation;
  user = tk.user;
}

module _ {C : Type 0} where
  abbrev pub new_tuple_key : Text → Text → Text → TupleKey C
  new_tuple_key object relation user = record {
    object = object;
    relation = relation;
    user = user;
    condition = none;
  }

  abbrev pub tuple_key_without_condition_to_tuple_key : TupleKeyWithoutCondition → TupleKey C
  tuple_key_without_condition_to_tuple_key tk = record {
    object = tk.object;
    relation = tk.relation;
    user = tk.user;
    condition = none;
  }

  -- `empty_struct` is `&structpb.Struct{}`
  unfoldable pub new_relationship_condition : C → Text → Option C → Option (RelationshipCondition C)
  new_relationship_condition empty_struct name none =
      if text_eq name (text "")
      then none
      else some (record { name = name; context = some empty_struct })
  new_relationship_condition empty_struct name (some context) =
      if text_eq name (text "") then none else some (record { name = name; context = some context })

  unfoldable pub new_tuple_key_with_condition :
      C → Text → Text → Text → Text → Option C → TupleKey C
  unfolding new_relationship_condition
  new_tuple_key_with_condition empty_struct object relation user name context = record {
    object = object;
    relation = relation;
    user = user;
    condition = new_relationship_condition empty_struct name context;
  }

  -- `cond1 != nil`
  abbrev pub has_condition : Option (RelationshipCondition C) → Bool
  has_condition none = false
  has_condition (some c) = true

  -- `TupleKeys.Less` at two elements of the slice
  unfoldable pub less : TupleKey C → TupleKey C → Bool
  less a b =
      if not (text_eq a.object b.object)
      then text_lt a.object b.object
      else if not (text_eq a.relation b.relation)
      then text_lt a.relation b.relation
      else if not (text_eq a.user b.user)
      then text_lt a.user b.user
      else if (has_condition a.condition || has_condition b.condition)
          && not (text_eq (condition_name a.condition) (condition_name b.condition))
      then text_lt (condition_name a.condition) (condition_name b.condition)
      else true

abbrev pub tuple_keys_without_condition_to_tuple_keys :
    {C : Type 0} → List TupleKeyWithoutCondition → List (TupleKey C)
tuple_keys_without_condition_to_tuple_keys = map tuple_key_without_condition_to_tuple_key
