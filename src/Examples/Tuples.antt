-- ===== src/Examples/Tuples.antt =====
-- Tuple keys and users of pkg/tuple, as strings.
use kengen.Base.{
  ℕ, text, text_eq, ◌≡◌, ◌↔◌, refl, true, none, ◌∷◌, ◌<◌, all, length, arith, if◌then◌else◌,
}
use kengen.Tuple.Key.{TupleKey, less}
use kengen.Tuple.Valid.{is_valid_object, is_valid_relation, is_valid_userset, is_valid_user}
use kengen.Tuple.User.{User, userset, user_proto_to_string, string_to_user_proto}
use kengen.Tuple.Split.{to_user_parts, from_user_parts}
use kengen.Tuple.Parse.{parse_tuple_string, ok}
use kengen.Tuple.Grammar.{ObjectForm, is_valid_object_iff, is_valid_relation_iff, plain_no_at}
use kengen.Tuple.Userset.{UsersetForm, is_valid_userset_iff}
use kengen.Tuple.ParsePrint.{Parsed, parse_tuple_string_iff}
use kengen.Tuple.UserForms.{is_typed}
use kengen.Tuple.UserRoundTrip.{
  IsPrintable, string_to_user_proto-user_proto_to_string, user_proto_to_string-string_to_user_proto,
  from_user_parts-to_user_parts,
}
use kengen.Tuple.Order.{SameSortKey, less_both_iff}

abbrev doc_viewer : TupleKey ℕ
doc_viewer = record {
  object = text "doc:1";
  relation = text "viewer";
  user = text "user:anne";
  condition = none;
}

abbrev doc_editor : TupleKey ℕ
doc_editor = record {
  object = text "doc:1";
  relation = text "editor";
  user = text "user:anne";
  condition = none;
}

is_valid_object_iff_example : (is_valid_object (text "doc:1") ≡ true) ↔ ObjectForm (text "doc:1")
is_valid_object_iff_example = is_valid_object_iff (text "doc:1")

is_valid_userset_iff_example :
    (is_valid_userset (text "group:eng#member") ≡ true) ↔ UsersetForm (text "group:eng#member")
is_valid_userset_iff_example = is_valid_userset_iff (text "group:eng#member")

viewer_is_a_relation :
    (is_valid_relation (text "viewer") ≡ true)
    ↔ ((all plain_no_at (text "viewer") ≡ true) × (0 < length (text "viewer")))
viewer_is_a_relation = is_valid_relation_iff (text "viewer")

parse_tuple_string_iff_example :
    (parse_tuple_string (text "doc:1#viewer@user:anne") ≡ ok doc_viewer)
    ↔ Parsed (text "doc:1#viewer@user:anne") doc_viewer
parse_tuple_string_iff_example = parse_tuple_string_iff (text "doc:1#viewer@user:anne") doc_viewer

less_both_iff_example :
    ((less doc_viewer doc_editor ≡ true) × (less doc_editor doc_viewer ≡ true))
    ↔ SameSortKey doc_viewer doc_editor
less_both_iff_example = less_both_iff doc_viewer doc_editor

valid_userset : is_valid_user (text "group:eng#member") ≡ true
unfolding is_valid_user is_valid_userset text_eq kengen.Tuple.Valid.is_valid_user_id is_valid_object
valid_userset = refl

user_proto_to_string-string_to_user_proto_example :
    user_proto_to_string (string_to_user_proto (text "group:eng#member")) ≡ (
      if is_typed (text "group:eng#member")
      then text "group:eng#member"
      else b':' ∷ text "group:eng#member")
user_proto_to_string-string_to_user_proto_example =
    user_proto_to_string-string_to_user_proto (text "group:eng#member") valid_userset

from_user_parts-to_user_parts_example :
    (let (t, id, r) = to_user_parts (text "group:eng#member") in from_user_parts t id r)
    ≡ text "group:eng#member"
from_user_parts-to_user_parts_example =
    from_user_parts-to_user_parts (text "group:eng#member") valid_userset

abbrev eng_member : User
eng_member = userset (text "group") (text "eng") (text "member")

eng_member-IsPrintable : IsPrintable eng_member
eng_member-IsPrintable = (refl, refl, omega arith)

string_to_user_proto-user_proto_to_string_example :
    string_to_user_proto (user_proto_to_string eng_member) ≡ eng_member
string_to_user_proto-user_proto_to_string_example =
    string_to_user_proto-user_proto_to_string eng_member eng_member-IsPrintable
