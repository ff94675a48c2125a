-- ===== src/Tuple/User.antt =====
-- pkg/tuple/tuple.go: the `User` message and its string.
use kengen.Base.{Text, text_eq, ◌&&◌, [], ◌∷◌, ◌++◌, if◌then◌else◌}
use kengen.Tuple.Split.{wildcard, split_object, split_object_relation}

-- `openfgav1.User`: a typed wildcard, a userset (type, id, relation) or an object (type, id).
pub data User : Type 0 where
  typed_wildcard : Text → User
  userset : Text → Text → Text → User
  object : Text → Text → User

-- A message of no kind, at which the source panics, is none of `User`.
unfoldable pub user_proto_to_string : User → Text
user_proto_to_string (typed_wildcard t) = t ++ (b':' ∷ b'*' ∷ [])
user_proto_to_string (userset t id r) = t ++ (b':' ∷ (id ++ (b'#' ∷ r)))
user_proto_to_string (object t id) = t ++ (b':' ∷ id)

unfoldable pub string_to_user_proto : Text → User
unfolding split_object split_object_relation
string_to_user_proto user_key =
    let (user_obj, user_rel) = split_object_relation user_key in
    let (user_obj_type, user_obj_id) = split_object user_obj in
    if text_eq user_rel [] && text_eq user_obj_id wildcard
    then typed_wildcard user_obj_type
    else if text_eq user_rel []
    then object user_obj_type user_obj_id
    else userset user_obj_type user_obj_id user_rel
