-- ===== src/Typesystem/Entrypoints/Entry.antt =====
-- What an entrypoint of a relation is, apart from the search for it.
use kengen.Base.{Text, ◌≡◌, true, not, ◌||◌, some, Memᴰ}
use kengen.Typesystem.Model.{
  Userset, this, computed_userset, tuple_to_userset, union, intersection, difference, Children,
  leaf, child, children, RelationReference, relation_of, has_wildcard, has_target, Relation,
  TypeSystem,
}
use kengen.Typesystem.Entrypoints.{relation_in}

module _ {D : Type 0} (t : TypeSystem D) where
  -- The rewrite of a relation leads to an object of a type: by an assignable type or wildcard, by an assignable userset
  -- or a computed relation that has an entrypoint, by a related type of the tupleset whose relation has one, by some
  -- operand of a union, or by each operand of an intersection or a difference.
  mutual
    pub data Entry : Text → Text → Userset → Type 0 where
      direct :
          {ty r : Text} (d : Relation) (ref : RelationReference)
          → relation_in t ty r ≡ some d
          → Memᴰ ref d.directly_related
          → (not (has_target ref.target) || has_wildcard ref.target) ≡ true
          → Entry ty r this
      userset :
          {ty r : Text} (d : Relation) (ref : RelationReference) (s : Relation)
          → relation_in t ty r ≡ some d
          → Memᴰ ref d.directly_related
          → relation_in t ref.object_type (relation_of ref.target) ≡ some s
          → Entry ref.object_type (relation_of ref.target) s.rewrite
          → Entry ty r this
      computed :
          {ty r c : Text} (s : Relation)
          → relation_in t ty c ≡ some s
          → Entry ty c s.rewrite
          → Entry ty r (computed_userset c)
      from :
          {ty r y x : Text} (d : Relation) (ref : RelationReference) (s : Relation)
          → relation_in t ty y ≡ some d
          → Memᴰ ref d.directly_related
          → relation_in t ref.object_type x ≡ some s
          → Entry ref.object_type x s.rewrite
          → Entry ty r (tuple_to_userset y x)
      one :
          {ty r : Text} {us : Children} (u : Userset)
          → Memᴰ u (children us)
          → Entry ty r u
          → Entry ty r (union us)
      every : {ty r : Text} {us : Children} → Each ty r us → Entry ty r (intersection us)
      both :
          {ty r : Text} {b s : Userset} → Entry ty r b → Entry ty r s → Entry ty r (difference b s)

    pub data Each : Text → Text → Children → Type 0 where
      no_more : {ty r : Text} → Each ty r leaf
      one_more :
          {ty r : Text} {u : Userset} {us : Children}
          → Entry ty r u
          → Each ty r us
          → Each ty r (child u us)

  -- A relation that is there and has an entrypoint.
  abbrev pub Enters : Text → Text → Type 0
  Enters ty r = (s : Relation) × (relation_in t ty r ≡ some s) × Entry ty r s.rewrite
