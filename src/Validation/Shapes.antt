-- ===== src/Validation/Shapes.antt =====
-- internal/validation/validation.go: which users fit a type restriction.
use kengen.Base.{
  ◌<◌, Text, text_eq, text_eq_iff, ◌≡◌, ◌⊎◌, refl, sym, ap, subst, ◌∙◌, Bool, true, false, not,
  ◌&&◌, [], ◌∷◌, ◌++◌, inl, inr, arith, length, all, append_assoc,
}
use kengen.Tuple.Split.{
  get_type, get_relation, is_typed_wildcard, wildcard, build_object, typed_public_wildcard,
}
use kengen.Tuple.Slices.{split_object-append}
use kengen.Tuple.Grammar.{plain, plain_no_star, ObjectForm}
use kengen.Tuple.Userset.{UsersetForm}
use kengen.Tuple.Lacks.{lacks_of_plain, lacks_of_plain_no_star}
use kengen.Tuple.UserForms.{object_split, userset_split, text_eq-append_cons, text_eq-nil}
use kengen.Typesystem.Model.{
  RelationOrWildcard, neither, wildcard as any_of_type, nil_wildcard, of_relation,
  RelationReference,
}
use kengen.Validation.Conditions.{facet_matches, restriction_allows}

-- The users that a restriction to a type allows: an object of the type that is not its wildcard, the wildcard, or a
-- userset of the relation. The restrictions that a valid model does not have are left open.
abbrev pub Shape : RelationOrWildcard → Text → Text → Type 0
Shape neither ty user = (id : Text) × (user ≡ build_object ty id) × (text_eq id wildcard ≡ false)
Shape any_of_type ty user = user ≡ typed_public_wildcard ty
Shape nil_wildcard ty user = Unit
Shape (of_relation []) ty user = Unit
Shape (of_relation (c ∷ r)) ty user = (id : Text) × (user ≡ build_object ty id ++ (b'#' ∷ c ∷ r))

-- The parts that the validation takes of a user.
record Parts (user : Text) (ty : Text) (relation : Text) (is_wild : Bool) : Type 0 where
  of_type : get_type user ≡ ty
  of_relation_part : get_relation user ≡ relation
  wild : is_typed_wildcard user ≡ is_wild

-- The parts of `t:rest` that stand before its first colon.
typed_parts :
    (t rest : Text)
    → all plain t ≡ true
    → 0 < length t
    → (get_type (t ++ (b':' ∷ rest)) ≡ t)
      × (is_typed_wildcard (t ++ (b':' ∷ rest)) ≡ text_eq rest wildcard)
unfolding get_type is_typed_wildcard
typed_parts t rest ht nt =
    let e = split_object-append t rest (lacks_of_plain t ht).0 in
    (
      ap (λ z. z.0) e,
      ap (λ z. not (text_eq z.0 []) && text_eq z.1 wildcard) e ∙ rw (text_eq-nil t nt) refl,
    )

object-Parts :
    (t id : Text)
    → all plain t ≡ true
    → 0 < length t
    → all plain id ≡ true
    → Parts (t ++ (b':' ∷ id)) t [] (text_eq id wildcard)
unfolding get_relation
object-Parts t id ht nt hid =
    let (a, b) = typed_parts t id ht nt in
    record {
      of_type = a;
      of_relation_part =
          ap (λ z. z.1) (object_split t id (lacks_of_plain t ht).1 (lacks_of_plain id hid).1);
      wild = b;
    }

not_star : (id r : Text) → 0 < length id → text_eq (id ++ (b'#' ∷ r)) wildcard ≡ false
unfolding text_eq
not_star [] r h = elim h [ ]
not_star (x ∷ id) r h = ground (arith, text_eq-append_cons id r b'#')

userset-Parts :
    (t id r : Text)
    → all plain t ≡ true
    → 0 < length t
    → 0 < length id
    → all plain_no_star r ≡ true
    → Parts (t ++ (b':' ∷ (id ++ (b'#' ∷ r)))) t r false
unfolding get_relation
userset-Parts t id r ht nt nid hr =
    let (a, b) = typed_parts t (id ++ (b'#' ∷ r)) ht nt in
    record {
      of_type = a;
      of_relation_part = ap (λ z. z.1) (userset_split t id r (lacks_of_plain_no_star r hr).1);
      wild = b ∙ not_star id r nid;
    }

refute : false ≡ true → ⊥
refute h = cc

object-Shape :
    (target : RelationOrWildcard) (t id : Text)
    → Parts (t ++ (b':' ∷ id)) t [] (text_eq id wildcard)
    → facet_matches target (t ++ (b':' ∷ id)) [] ≡ true
    → Shape target t (t ++ (b':' ∷ id))
unfolding facet_matches text_eq
object-Shape neither t id p h = (id, refl, ground (arith, p.wild, h))
object-Shape any_of_type t id p h =
    ap (λ z. t ++ (b':' ∷ z)) ((text_eq_iff id wildcard).0 (ground (arith, p.wild, h)))
object-Shape nil_wildcard t id p h = tt
object-Shape (of_relation []) t id p h = tt
object-Shape (of_relation (c ∷ r)) t id p h = absurd (refute h)

userset-Shape :
    (target : RelationOrWildcard) (t id r : Text)
    → Parts (t ++ (b':' ∷ (id ++ (b'#' ∷ r)))) t r false
    → 0 < length r
    → facet_matches target (t ++ (b':' ∷ (id ++ (b'#' ∷ r)))) r ≡ true
    → Shape target t (t ++ (b':' ∷ (id ++ (b'#' ∷ r))))
unfolding facet_matches
userset-Shape neither t id r p some_r h = absurd (refute (ground (arith, text_eq-nil r some_r, h)))
userset-Shape any_of_type t id r p some_r h = absurd (refute (ground (arith, p.wild, h)))
userset-Shape nil_wildcard t id r p some_r h = tt
userset-Shape (of_relation []) t id r p some_r h = tt
userset-Shape (of_relation (c ∷ r')) t id r p some_r h =
    let same : c ∷ r' ≡ r =
      (text_eq_iff (c ∷ r') r).0 (ground (arith, text_eq-append_cons [] r' c, h)) in
    (
      id,
      ap (λ z. t ++ (b':' ∷ (id ++ (b'#' ∷ z)))) (sym same)
          ∙ sym (append_assoc t (b':' ∷ id) (b'#' ∷ c ∷ r')),
    )

-- A restriction that allows a user, by the user's parts.
allows-Parts :
    (ref : RelationReference) (condition user ty relation : Text) (is_wild : Bool)
    → Parts user ty relation is_wild
    → restriction_allows condition user ref ≡ true
    → (ref.object_type ≡ ty)
      × (ref.condition ≡ condition)
      × (facet_matches ref.target user relation ≡ true)
allows-Parts ref condition user ty relation is_wild p h =
    let h' : (text_eq ref.object_type ty
          && (text_eq ref.condition condition && facet_matches ref.target user relation))
        ≡ true =
      rw (p.of_type, p.of_relation_part) at h in
    (
      (text_eq_iff ref.object_type ty).0 (ground (arith, h')),
      (text_eq_iff ref.condition condition).0 (ground (arith, h')),
      ground (arith, h'),
    )

-- A user that a restriction allows has its shape.
pub restriction_allows-Shape :
    (ref : RelationReference) (condition user : Text)
    → ObjectForm user ⊎ UsersetForm user
    → restriction_allows condition user ref ≡ true
    → Shape ref.target ref.object_type user × (ref.condition ≡ condition)
restriction_allows-Shape ref condition user (inl f) h =
    let s = f.t ++ (b':' ∷ f.id) in
    let p = object-Parts f.t f.id f.t_plain f.t_some f.id_plain in
    let (ty, cond, facet) =
      allows-Parts ref condition s f.t [] (text_eq f.id wildcard) p
        (subst (λ z. restriction_allows condition z ref ≡ true) f.split h) in
    (
      subst (λ z. Shape ref.target z user) (sym ty)
          (subst (λ z. Shape ref.target f.t z) (sym f.split)
            (object-Shape ref.target f.t f.id p facet)),
      cond,
    )
restriction_allows-Shape ref condition user (inr f) h =
    let s = f.t ++ (b':' ∷ (f.id ++ (b'#' ∷ f.relation))) in
    let p = userset-Parts f.t f.id f.relation f.t_plain f.t_some f.id_some f.relation_plain in
    let (ty, cond, facet) =
      allows-Parts ref condition s f.t f.relation false p
        (subst (λ z. restriction_allows condition z ref ≡ true) f.split h) in
    (
      subst (λ z. Shape ref.target z user) (sym ty)
          (subst (λ z. Shape ref.target f.t z) (sym f.split)
            (userset-Shape ref.target f.t f.id f.relation p f.relation_some facet)),
      cond,
    )
