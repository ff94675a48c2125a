-- ===== src/Tuple/Split.antt =====
-- pkg/tuple/tuple.go: taking apart and building object and user strings.
use kengen.Base.{
  ℕ, suc, Text, text, text_eq, Bool, not, ◌&&◌, ◌||◌, Option, none, some, [], ◌∷◌, ◌++◌, length,
  take, drop, ltb, ◌==◌, if◌then◌else◌,
}
use kengen.Tuple.Key.{TupleKey}

-- `strings.IndexByte(s, c)`; `none` is -1
unfoldable pub index_byte : ℕ → Text → Option ℕ
index_byte c [] = none
index_byte c (x ∷ s) =
    if x == c then some 0 else elim (index_byte c s) [ none ↦ none | some i ↦ some (suc i) ]

-- `strings.LastIndexByte(s, c)`
unfoldable pub last_index_byte : ℕ → Text → Option ℕ
last_index_byte c [] = none
last_index_byte c (x ∷ s) = elim (last_index_byte c s) [
  | some i ↦ some (suc i)
  | none ↦ if x == c then some 0 else none
]

-- `strings.Cut(s, c)` for a separator of one byte; `none` is `found == false`
unfoldable pub cut : ℕ → Text → Option (Text × Text)
unfolding index_byte
cut c s = elim (index_byte c s) [ none ↦ none | some i ↦ some (take i s, drop (suc i) s) ]

abbrev pub wildcard : Text
wildcard = text "*"

unfoldable pub split_object : Text → Text × Text
unfolding index_byte
split_object object = elim (index_byte b':' object) [
  | none ↦ ([], object)
  | some ndx ↦ (take ndx object, drop (suc ndx) object)
]

abbrev pub build_object : Text → Text → Text
build_object object_type object_id = object_type ++ (b':' ∷ object_id)

unfoldable pub split_object_relation : Text → Text × Text
unfolding last_index_byte
split_object_relation object_relation = elim (last_index_byte b'#' object_relation) [
  | none ↦ (object_relation, [])
  | some i ↦
      if suc i == length object_relation
      then (take i object_relation, [])
      else (take i object_relation, drop (suc i) object_relation)
]

unfoldable pub get_type : Text → Text
unfolding split_object
get_type object_id = (split_object object_id).0

unfoldable pub get_relation : Text → Text
unfolding split_object_relation
get_relation object_relation = (split_object_relation object_relation).1

abbrev pub to_object_relation_string : Text → Text → Text
to_object_relation_string object relation = object ++ (b'#' ∷ relation)

-- `GetObjectRelationAsString` of an `ObjectRelation` message
unfoldable pub get_object_relation_as_string : Text → Text → Text
get_object_relation_as_string object relation =
    if not (text_eq relation []) then object ++ (b'#' ∷ relation) else object

unfoldable pub to_user_parts : Text → Text × Text × Text
unfolding split_object split_object_relation
to_user_parts user =
    let (user_object, user_relation) = split_object_relation user in
    let (user_object_type, user_object_id) = split_object user_object in
    (user_object_type, user_object_id, user_relation)

-- The buffer always has room for the bytes that are copied, so it is a plain concatenation.
unfoldable pub from_user_parts : Text → Text → Text → Text
from_user_parts user_object_type user_object_id user_relation =
    let w1 = if ltb 0 (length user_object_type) then user_object_type ++ (b':' ∷ []) else [] in
    let w2 = w1 ++ user_object_id in
    if ltb 0 (length user_relation) then w2 ++ (b'#' ∷ user_relation) else w2

unfoldable pub is_typed_wildcard : Text → Bool
unfolding split_object
is_typed_wildcard s = let (t, id) = split_object s in not (text_eq t []) && text_eq id wildcard

unfoldable pub is_wildcard : Text → Bool
unfolding is_typed_wildcard
is_wildcard s = text_eq s wildcard || is_typed_wildcard s

abbrev pub typed_public_wildcard : Text → Text
typed_public_wildcard object_type = build_object object_type wildcard

unfoldable pub is_self_defining : {C : Type 0} → TupleKey C → Bool
unfolding split_object_relation
is_self_defining tuple =
    let (user_object, user_relation) = split_object_relation tuple.user in
    text_eq tuple.relation user_relation && text_eq tuple.object user_object

unfoldable pub userset_match_type_and_relation : Text → Text → Text → Bool
unfolding to_user_parts
userset_match_type_and_relation userset relation typee =
    let (user_object_type, user_object_id, user_relation) = to_user_parts userset in
    text_eq relation user_relation && text_eq typee user_object_type
