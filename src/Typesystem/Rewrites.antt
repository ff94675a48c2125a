-- ===== src/Typesystem/Rewrites.antt =====
-- pkg/typesystem/typesystem.go: walks over a userset rewrite and the validity of one.
use kengen.Base.{Text, text_eq, Bool, true, false, not, Option, none, some, [], any, if◌then◌else◌}
use kengen.Typesystem.Model.{
  Userset, unset, this, computed_userset, tuple_to_userset, union, intersection, difference,
  Children, leaf, child, Relation, TypeSystem, is_schema_version_supported,
}
use kengen.Typesystem.Lookup.{
  TypesystemError, relation_undefined, invalid_rewrite, tupleset_not_direct, computed_not_related,
  ok, err, get_relation,
}

-- What `WalkUsersetRewrite` returns: a value of the handler, nothing, or its own error.
pub data Walked {ℓ} (A : Type ℓ) : Type ℓ where
  walked : A → Walked A
  nothing unexpected : Walked A

module _ {A : Type 0} (handler : Userset → Option A) where
  abbrev of_handler : Option A → Walked A
  of_handler none = nothing
  of_handler (some a) = walked a

  -- The handler first, then what lies below.
  abbrev or_below : Option A → Walked A → Walked A
  or_below (some a) below = walked a
  or_below none below = below

  -- A child, then the other children.
  abbrev or_next : Walked A → Walked A → Walked A
  or_next (walked a) next = walked a
  or_next nothing next = next
  or_next unexpected next = unexpected

  unfoldable mutual
    pub walk_userset_rewrite : Userset → Walked A
    walk_userset_rewrite unset = or_below (handler unset) unexpected
    walk_userset_rewrite this = or_below (handler this) (of_handler (handler this))
    walk_userset_rewrite (computed_userset r) =
        or_below (handler (computed_userset r)) (of_handler (handler (computed_userset r)))
    walk_userset_rewrite (tuple_to_userset t c) =
        or_below (handler (tuple_to_userset t c)) (of_handler (handler (tuple_to_userset t c)))
    walk_userset_rewrite (union us) = or_below (handler (union us)) (walk_children us)
    walk_userset_rewrite (intersection us) = or_below (handler (intersection us)) (walk_children us)
    walk_userset_rewrite (difference b s) =
        or_below (handler (difference b s))
          (or_next (walk_userset_rewrite b) (or_next (walk_userset_rewrite s) nothing))

    pub walk_children : Children → Walked A
    walk_children leaf = nothing
    walk_children (child u us) = or_next (walk_userset_rewrite u) (walk_children us)

abbrev pub is_this : Userset → Bool
is_this this = true
is_this _ = false

abbrev pub when_this : Userset → Option Bool
when_this u = if is_this u then some true else none

-- `RewriteContainsSelf`; `none` is its panic.
unfoldable pub rewrite_contains_self : Userset → Option Bool
unfolding walk_userset_rewrite
rewrite_contains_self rewrite = elim (walk_userset_rewrite when_this rewrite) [
  | walked b ↦ some b
  | nothing ↦ some false
  | unexpected ↦ none
]

-- `IsDirectlyAssignable`
unfoldable pub is_directly_assignable : Relation → Option Bool
unfolding rewrite_contains_self
is_directly_assignable r = rewrite_contains_self r.rewrite

-- One check after another: `none` is that it passes.
abbrev pub also : Option TypesystemError → Option TypesystemError → Option TypesystemError
also (some e) next = some e
also none next = next

module _ {D : Type 0} (t : TypeSystem D) where
  abbrev pub is_defined : Text → Text → Bool
  is_defined object_type relation = elim (get_relation t object_type relation) [
    | ok r ↦ true
    | err e ↦ false
  ]

  -- The check of `X from Y` once `Y` is found: `any_type` is that some type of the model defines the relation.
  abbrev pub tupleset_error : Text → Text → Text → Relation → Option TypesystemError
  tupleset_error object_type tupleset computed r =
      if not (is_this r.rewrite)
      then some (tupleset_not_direct object_type tupleset)
      else if is_schema_version_supported t.schema_version
      then (if any (λ ref. is_defined ref.object_type computed) r.directly_related
          then none
          else some (computed_not_related object_type computed))
      else if any (λ ty. is_defined ty.0 computed) t.relations
      then none
      else some (relation_undefined [] computed)

  -- The cases of a computed relation and of `X from Y`.
  unfoldable pub is_computed_valid : Text → Text → Text → Option TypesystemError
  unfolding get_relation
  is_computed_valid object_type relation c =
      if text_eq c relation
      then some (invalid_rewrite object_type relation)
      else if is_defined object_type c
      then none
      else some (relation_undefined object_type c)

  unfoldable pub is_tupleset_valid : Text → Text → Text → Option TypesystemError
  unfolding get_relation
  is_tupleset_valid object_type tupleset computed = elim (get_relation t object_type tupleset) [
    | err e ↦ some (relation_undefined object_type tupleset)
    | ok r ↦ tupleset_error object_type tupleset computed r
  ]

  -- `isUsersetRewriteValid`
  unfoldable mutual
    unfolding is_computed_valid is_tupleset_valid

    pub is_userset_rewrite_valid : Text → Text → Userset → Option TypesystemError
    is_userset_rewrite_valid object_type relation unset =
        some (invalid_rewrite object_type relation)
    is_userset_rewrite_valid object_type relation this = none
    is_userset_rewrite_valid object_type relation (computed_userset c) =
        is_computed_valid object_type relation c
    is_userset_rewrite_valid object_type relation (tuple_to_userset y x) =
        is_tupleset_valid object_type y x
    is_userset_rewrite_valid object_type relation (union us) =
        are_children_valid object_type relation us
    is_userset_rewrite_valid object_type relation (intersection us) =
        are_children_valid object_type relation us
    is_userset_rewrite_valid object_type relation (difference b s) =
        also (is_userset_rewrite_valid object_type relation b)
          (is_userset_rewrite_valid object_type relation s)

    pub are_children_valid : Text → Text → Children → Option TypesystemError
    are_children_valid object_type relation leaf = none
    are_children_valid object_type relation (child u us) =
        also (is_userset_rewrite_valid object_type relation u)
          (are_children_valid object_type relation us)
