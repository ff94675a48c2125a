-- ===== src/Tuple/UserRoundTrip.antt =====
-- User strings of pkg/tuple/tuple.go, taken apart and put together again.
use kengen.Base.{
  ◌<◌, Text, text_eq, text_eq_iff, text_eq_refl, ◌≡◌, true, false, [], ◌∷◌, ◌++◌, inl, inr, arith,
  length, ltb, if◌then◌else◌, append_assoc,
}
use kengen.Tuple.Split.{wildcard, to_user_parts, from_user_parts}
use kengen.Tuple.Valid.{is_valid_user}
use kengen.Tuple.User.{
  User, typed_wildcard, userset, object, user_proto_to_string, string_to_user_proto,
}
use kengen.Tuple.Slices.{lacks, split_object-append, split_object-none, split_object_relation-none}
use kengen.Tuple.Grammar.{ObjectForm}
use kengen.Tuple.Userset.{UsersetForm}
use kengen.Tuple.UserForms.{userset_split, object_split, text_eq-nil, is_typed, valid_user-cases}
use kengen.Tuple.Lacks.{lacks_of_plain, lacks_of_plain_no_star}

-- What a `User` message must satisfy to be read back from its string.
abbrev pub IsPrintable : User → Type 0
IsPrintable (typed_wildcard t) = (lacks b':' t ≡ true) × (lacks b'#' t ≡ true)
IsPrintable (userset t id r) = (lacks b':' t ≡ true) × (lacks b'#' r ≡ true) × (0 < length r)
IsPrintable (object t id) =
    (lacks b':' t ≡ true)
    × (lacks b'#' t ≡ true)
    × (lacks b'#' id ≡ true)
    × (text_eq id wildcard ≡ false)

-- A user message is read back from its string when its type has no `:`, its relation is not empty
-- and has no `#`, a string without a relation has no `#`, and an object's id is not `*`.
pub string_to_user_proto-user_proto_to_string :
    (u : User) → IsPrintable u → string_to_user_proto (user_proto_to_string u) ≡ u
unfolding user_proto_to_string string_to_user_proto
string_to_user_proto-user_proto_to_string (typed_wildcard t) h = ground (
  arith,
  object_split t wildcard,
  split_object-append t wildcard,
  text_eq_refl wildcard,
  text_eq_refl [],
)
string_to_user_proto-user_proto_to_string (userset t id r) h =
    ground (arith, userset_split t id r, split_object-append t id, text_eq-nil r)
string_to_user_proto-user_proto_to_string (object t id) h =
    ground (arith, object_split t id, split_object-append t id, text_eq_refl [])

user_proto_to_string-userset :
    (s : Text) → UsersetForm s → user_proto_to_string (string_to_user_proto s) ≡ s
unfolding user_proto_to_string string_to_user_proto
user_proto_to_string-userset s f = rw f.split (
    ground (
      arith,
      userset_split f.t f.id f.relation,
      split_object-append f.t f.id,
      text_eq-nil f.relation f.relation_some,
      lacks_of_plain f.t f.t_plain,
      lacks_of_plain_no_star f.relation f.relation_plain,
    ))

user_proto_to_string-object :
    (s : Text) → ObjectForm s → user_proto_to_string (string_to_user_proto s) ≡ s
unfolding user_proto_to_string string_to_user_proto
user_proto_to_string-object s f = rw f.split (
    ground (
      arith,
      object_split f.t f.id,
      split_object-append f.t f.id,
      text_eq_refl [],
      text_eq_iff f.id wildcard,
      lacks_of_plain f.t f.t_plain,
      lacks_of_plain f.id f.id_plain,
    ))

-- A bare user id, which the parser takes for an object with no type.
user_proto_to_string-bare :
    (s : Text)
    → lacks b':' s ≡ true
    → lacks b'#' s ≡ true
    → user_proto_to_string (string_to_user_proto s) ≡ b':' ∷ s
unfolding user_proto_to_string string_to_user_proto
user_proto_to_string-bare s hc hh = ground (
  arith,
  split_object_relation-none s,
  split_object-none s,
  text_eq_refl [],
  text_eq_iff s wildcard,
)

-- For a valid user, `UserProtoToString` undoes `StringToUserProto` when the user is an object or a
-- userset; a bare id or `*` comes back with a `:` in front.
pub user_proto_to_string-string_to_user_proto :
    (s : Text)
    → is_valid_user s ≡ true
    → user_proto_to_string (string_to_user_proto s) ≡ (if is_typed s then s else b':' ∷ s)
user_proto_to_string-string_to_user_proto s h = elim (valid_user-cases s h) [
  | inl (f, typed) ↦ rw typed (user_proto_to_string-object s f)
  | inr (inl (f, typed)) ↦ rw typed (user_proto_to_string-userset s f)
  | inr (inr (c, g, bare)) ↦ rw bare (user_proto_to_string-bare s c g)
]

from_user_parts-append :
    (t id r : Text)
    → 0 < length t
    → from_user_parts t id r
      ≡ (if ltb 0 (length r) then (t ++ (b':' ∷ id)) ++ (b'#' ∷ r) else t ++ (b':' ∷ id))
unfolding from_user_parts
from_user_parts-append t id r ht = ground (arith, append_assoc t (b':' ∷ []) id)

user_parts-userset :
    (s : Text) → UsersetForm s → (let (t, id, r) = to_user_parts s in from_user_parts t id r) ≡ s
unfolding to_user_parts
user_parts-userset s f = rw f.split (
    ground (
      arith,
      userset_split f.t f.id f.relation,
      split_object-append f.t f.id,
      lacks_of_plain f.t f.t_plain,
      lacks_of_plain_no_star f.relation f.relation_plain,
      from_user_parts-append f.t f.id f.relation f.t_some,
      append_assoc f.t (b':' ∷ f.id) (b'#' ∷ f.relation),
    ))

user_parts-object :
    (s : Text) → ObjectForm s → (let (t, id, r) = to_user_parts s in from_user_parts t id r) ≡ s
unfolding to_user_parts
user_parts-object s f = rw f.split (
    ground (
      arith,
      object_split f.t f.id,
      split_object-append f.t f.id,
      lacks_of_plain f.t f.t_plain,
      lacks_of_plain f.id f.id_plain,
      from_user_parts-append f.t f.id [] f.t_some,
    ))

user_parts-bare :
    (s : Text)
    → lacks b':' s ≡ true
    → lacks b'#' s ≡ true
    → (let (t, id, r) = to_user_parts s in from_user_parts t id r) ≡ s
unfolding to_user_parts from_user_parts
user_parts-bare s hc hh = ground (arith, split_object_relation-none s, split_object-none s)

-- `FromUserParts` puts a valid user back together from the parts that `ToUserParts` gives.
pub from_user_parts-to_user_parts :
    (s : Text)
    → is_valid_user s ≡ true
    → (let (t, id, r) = to_user_parts s in from_user_parts t id r) ≡ s
from_user_parts-to_user_parts s h = elim (valid_user-cases s h) [
  | inl (f, typed) ↦ user_parts-object s f
  | inr (inl (f, typed)) ↦ user_parts-userset s f
  | inr (inr (c, g, bare)) ↦ user_parts-bare s c g
]
