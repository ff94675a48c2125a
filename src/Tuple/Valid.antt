-- ===== src/Tuple/Valid.antt =====
-- pkg/tuple/tuple.go: the scanners that accept object, relation, user and userset strings.
-- A loop's index is only compared with 0, which a byte index and a code point index agree on.
use kengen.Base.{
  ℕ, ◌+◌, Text, text_eq, Bool, false, ◌&&◌, ◌||◌, [], ◌∷◌, ltb, leb, ◌==◌, if◌then◌else◌,
}
use kengen.Tuple.Split.{wildcard, is_wildcard}

-- `unicode.IsControl`
unfoldable pub is_control : ℕ → Bool
is_control r = leb r 0x1f || (leb 0x7f r && leb r 0x9f)

unfoldable pub object_loop : ℕ → ℕ → ℕ → Text → Bool
object_loop ndx state id_len [] = ltb 0 id_len
object_loop ndx state id_len (chr ∷ s) =
    let after_colon = object_loop (ndx + 1) 1 id_len s in
    let after_other = object_loop (ndx + 1) state (id_len + state) s in
    if is_control chr
    then false
    else if chr == b'#' || chr == b' '
    then false
    else if chr == b':'
    then (if ltb 0 state || ndx == 0 then false else after_colon)
    else after_other

unfoldable pub is_valid_object : Text → Bool
unfolding object_loop is_control
is_valid_object s = object_loop 0 0 0 s

unfoldable pub relation_loop : ℕ → Text → Bool
relation_loop count [] = ltb 0 count
relation_loop count (chr ∷ s) =
    let rest = relation_loop (count + 1) s in
    if is_control chr
    then false
    else if chr == b'#' || chr == b':' || chr == b'@' || chr == b' '
    then false
    else rest

unfoldable pub is_valid_relation : Text → Bool
unfolding relation_loop is_control
is_valid_relation s = relation_loop 0 s

unfoldable pub user_id_loop : ℕ → Text → Bool
user_id_loop count [] = ltb 0 count
user_id_loop count (chr ∷ s) =
    let rest = user_id_loop (count + 1) s in
    if is_control chr
    then false
    else if chr == b'#' || chr == b':' || chr == b' '
    then false
    else rest

unfoldable pub is_valid_user_id : Text → Bool
unfolding user_id_loop is_control
is_valid_user_id s = user_id_loop 0 s

unfoldable pub userset_loop : ℕ → ℕ → ℕ → ℕ → Text → Bool
userset_loop ndx state id_len rel_len [] = ltb 0 rel_len
userset_loop ndx state id_len rel_len (chr ∷ s) =
    let to_id = userset_loop (ndx + 1) 1 id_len rel_len s in
    let to_relation = userset_loop (ndx + 1) 2 id_len rel_len s in
    let star = userset_loop (ndx + 1) state id_len rel_len s in
    let in_type = userset_loop (ndx + 1) state id_len rel_len s in
    let in_id = userset_loop (ndx + 1) state (id_len + 1) rel_len s in
    let in_relation = userset_loop (ndx + 1) state id_len (rel_len + 1) s in
    if is_control chr
    then false
    else if chr == b':'
    then (if ltb 0 state || ndx == 0 then false else to_id)
    else if chr == b'#'
    then (if ltb 1 state || id_len == 0 then false else to_relation)
    else if chr == b' '
    then false
    else if chr == b'*'
    then (if ltb 0 state then false else star)
    else if state == 1
    then in_id
    else if state == 2
    then in_relation
    else in_type

unfoldable pub is_valid_userset : Text → Bool
unfolding userset_loop is_control
is_valid_userset s = userset_loop 0 0 0 0 s

unfoldable pub is_valid_user : Text → Bool
is_valid_user user =
    text_eq user wildcard || is_valid_user_id user || is_valid_object user || is_valid_userset user

unfoldable pub is_object_relation : Text → Bool
unfolding is_valid_userset
is_object_relation userset = is_valid_userset userset

pub data UserType : Type 0 where
  user user_set : UserType

unfoldable pub get_user_type_from_user : Text → UserType
unfolding is_object_relation is_wildcard
get_user_type_from_user u = if is_object_relation u || is_wildcard u then user_set else user
