-- ===== src/Check/Derivation.antt =====
-- What it is for a user to have a relation to an object, by the tuples of the datastore and the rewrites of the model.
-- A tuple counts if it is valid in the model and its condition holds. `excluded` says
-- of a user, an object, a relation and the subtracted rewrite of a difference that it does not give it.
use kengen.Base.{Text, ◌≡◌, true, [], Memᴰ}
use kengen.Tuple.Key.{TupleKey, new_tuple_key}
use kengen.Tuple.Split.{
  split_object, split_object_relation, get_type, is_wildcard, is_typed_wildcard, is_self_defining,
}
use kengen.Storage.Record.{TupleRecord, as_tuple}
use kengen.Storage.Memory.Match.{matches}
use kengen.Storage.Iterators.Answer.{holds}
use kengen.Typesystem.Model.{
  Userset, this, computed_userset, tuple_to_userset, union, intersection, difference, Children,
  leaf, child, Relation,
}
use kengen.Typesystem.Lookup.{ok, get_relation}
use kengen.Validation.Struct.{Fields, no_fields}
use kengen.Validation.Tuples.{filter_invalid_tuples}
use kengen.Check.Request.{Checker}

-- The key of a record's tuple.
abbrev pub key_of : TupleRecord Fields → TupleKey Fields
key_of r = (as_tuple no_fields r).key

module _ {D P V : Type 0} (c : Checker D P V) (store : Text) where
  -- A record of the store for the object and relation (and the user, unless it is empty), that counts.
  pub record Counts (object relation user : Text) (r : TupleRecord Fields) : Type 0 where
    pub stored : Memᴰ r (c.datastore.tuples store)
    pub matched : matches r object relation user ≡ true
    pub valid : filter_invalid_tuples c.parameters c.convert c.typesys (key_of r) ≡ true
    pub met : holds c.condition_met (key_of r) ≡ true

  module _ (excluded : Text → Text → Text → Userset → Type 0) where
    mutual
      -- The user has the relation to the object.
      pub data Related (user : Text) : Text → Text → Type 0 where
        itself :
            (object relation : Text)
            → is_self_defining (let tk : TupleKey Fields = new_tuple_key object relation user in tk)
              ≡ true
            → Related user object relation
        by_rewrite :
            (object relation : Text) (d : Relation)
            → get_relation c.typesys (split_object object).0 relation ≡ ok d
            → Grants user object relation d.rewrite
            → Related user object relation

      -- A rewrite of the relation gives it to the user.
      pub data Grants (user : Text) : Text → Text → Userset → Type 0 where
        direct :
            (object relation : Text) (r : TupleRecord Fields)
            → Counts object relation user r
            → Grants user object relation this
        everyone :
            (object relation : Text) (r : TupleRecord Fields)
            → Counts object relation [] r
            → is_wildcard r.user ≡ true
            → get_type r.user ≡ get_type user
            → Grants user object relation this
        userset_of_all :
            (object relation : Text) (r : TupleRecord Fields)
            → Counts object relation [] r
            → is_typed_wildcard (split_object_relation (key_of r).user).0 ≡ true
            → get_type (split_object_relation (key_of r).user).0 ≡ get_type user
            → Grants user object relation this
        through_userset :
            (object relation : Text) (r : TupleRecord Fields)
            → Counts object relation [] r
            → Related user
                (split_object_relation (key_of r).user).0
                (split_object_relation (key_of r).user).1
            → Grants user object relation this
        computed :
            (object relation other : Text)
            → Related user object other
            → Grants user object relation (computed_userset other)
        through_tupleset :
            (object relation tupleset other : Text) (r : TupleRecord Fields)
            → Counts object tupleset [] r
            → Related user (split_object_relation (key_of r).user).0 other
            → Grants user object relation (tuple_to_userset tupleset other)
        one_of :
            (object relation : Text) (us : Children)
            → GrantsOne user object relation us
            → Grants user object relation (union us)
        all_of :
            (object relation : Text) (us : Children)
            → GrantsAll user object relation us
            → Grants user object relation (intersection us)
        base_of :
            (object relation : Text) (b s : Userset)
            → Grants user object relation b
            → excluded user object relation s
            → Grants user object relation (difference b s)

      pub data GrantsOne (user : Text) : Text → Text → Children → Type 0 where
        here :
            (object relation : Text) (u : Userset) (us : Children)
            → Grants user object relation u
            → GrantsOne user object relation (child u us)
        there :
            (object relation : Text) (u : Userset) (us : Children)
            → GrantsOne user object relation us
            → GrantsOne user object relation (child u us)

      pub data GrantsAll (user : Text) : Text → Text → Children → Type 0 where
        none_left : (object relation : Text) → GrantsAll user object relation leaf
        and_next :
            (object relation : Text) (u : Userset) (us : Children)
            → Grants user object relation u
            → GrantsAll user object relation us
            → GrantsAll user object relation (child u us)
