-- ===== src/Tuple/UserForms.antt =====
-- The shapes of the user strings that pkg/tuple/tuple.go accepts, and their parts.
use kengen.Base.{
  ℕ, ◌<◌, Text, text_eq, text_eq_iff, ◌≡◌, ◌⊎◌, refl, ap, ◌∙◌, sym, Bool, true, false, ◌||◌, [],
  ◌∷◌, ◌++◌, inl, inr, arith, length, Bool-cases, append_assoc,
}
use kengen.Tuple.Split.{split_object_relation, wildcard, to_user_parts}
use kengen.Tuple.Valid.{is_valid_object, is_valid_user, is_valid_user_id, is_valid_userset}
use kengen.Tuple.Slices.{
  lacks, split_object-append, split_object-none, split_object_relation-append,
  split_object_relation-none,
}
use kengen.Tuple.Grammar.{ObjectForm, ObjectForm-sound, is_valid_user_id_iff}
use kengen.Tuple.Userset.{UsersetForm, UsersetForm-sound}
use kengen.Tuple.Lacks.{lacks_of_plain, lacks_of_plain_no_star, lacks-append}

-- The split of a userset string at its last `#`.
pub userset_split :
    (t id r : Text)
    → lacks b'#' r ≡ true
    → split_object_relation (t ++ (b':' ∷ (id ++ (b'#' ∷ r)))) ≡ (t ++ (b':' ∷ id), r)
userset_split t id r hr =
    ap split_object_relation (sym (append_assoc t (b':' ∷ id) (b'#' ∷ r)))
    ∙ split_object_relation-append (t ++ (b':' ∷ id)) r hr

-- The split of an object string, which has no `#`.
pub object_split :
    (t id : Text)
    → lacks b'#' t ≡ true
    → lacks b'#' id ≡ true
    → split_object_relation (t ++ (b':' ∷ id)) ≡ (t ++ (b':' ∷ id), [])
object_split t id ht hid =
    split_object_relation-none (t ++ (b':' ∷ id)) (lacks-append b'#' t (b':' ∷ id) ht hid)

pub text_eq-nil : (r : Text) → 0 < length r → text_eq r [] ≡ false
unfolding text_eq
text_eq-nil [] h = elim h [ ]
text_eq-nil (x ∷ r) h = refl

-- `type:...` as opposed to a bare id.
abbrev pub is_typed : Text → Bool
is_typed s = is_valid_object s || is_valid_userset s

bare_user :
    (s : Text)
    → is_valid_user s ≡ true
    → is_typed s ≡ false
    → (lacks b':' s ≡ true) × (lacks b'#' s ≡ true)
unfolding is_valid_user
bare_user s h n = elim (Bool-cases (text_eq s wildcard)) [
  | inl star ↦ rw ((text_eq_iff s wildcard).0 star) (refl, refl)
  | inr other ↦ lacks_of_plain s ((is_valid_user_id_iff s).0 (ground arith)).0
]

-- The shapes of a valid user.
pub valid_user-cases :
    (s : Text)
    → is_valid_user s ≡ true
    → ObjectForm s × (is_typed s ≡ true)
      ⊎ UsersetForm s × (is_typed s ≡ true)
      ⊎ (lacks b':' s ≡ true) × (lacks b'#' s ≡ true) × (is_typed s ≡ false)
valid_user-cases s h = elim (Bool-cases (is_valid_object s)) [
  | inl o ↦ inl (ObjectForm-sound s o, ground arith)
  | inr no_object ↦ elim (Bool-cases (is_valid_userset s)) [
    | inl u ↦ inr (inl (UsersetForm-sound s u, ground arith))
    | inr no_userset ↦ let (c, g) = bare_user s h (ground arith) in inr (inr (c, g, ground arith))
  ]
]

pub text_eq-append_cons : (t r : Text) (c : ℕ) → text_eq (t ++ (c ∷ r)) [] ≡ false
unfolding text_eq
text_eq-append_cons [] r c = refl
text_eq-append_cons (x ∷ t) r c = refl

-- The empty string is not a valid user.
valid_user_some : (s : Text) → is_valid_user s ≡ true → text_eq s [] ≡ false
unfolding is_valid_user is_valid_user_id is_valid_object is_valid_userset text_eq
valid_user_some [] h = cc
valid_user_some (x ∷ s) h = refl

-- The id of a valid user is not empty, nor is the user.
pub to_user_parts-valid :
    (s : Text)
    → is_valid_user s ≡ true
    → (text_eq (to_user_parts s).1 [] ≡ false) × (text_eq s [] ≡ false)
unfolding to_user_parts
to_user_parts-valid s h = elim (valid_user-cases s h) [
  | inl (f, typed) ↦ rw f.split (
      ground (
        arith,
        object_split f.t f.id,
        split_object-append f.t f.id,
        lacks_of_plain f.t f.t_plain,
        lacks_of_plain f.id f.id_plain,
        text_eq-nil f.id f.id_some,
        text_eq-append_cons f.t f.id b':',
      ))
  | inr (inl (f, typed)) ↦ rw f.split (
      ground (
        arith,
        userset_split f.t f.id f.relation,
        split_object-append f.t f.id,
        lacks_of_plain f.t f.t_plain,
        lacks_of_plain_no_star f.relation f.relation_plain,
        text_eq-nil f.id f.id_some,
        text_eq-append_cons f.t (f.id ++ (b'#' ∷ f.relation)) b':',
      ))
  | inr (inr (c, g, bare)) ↦
      ground (arith, split_object_relation-none s, split_object-none s, valid_user_some s)
]
