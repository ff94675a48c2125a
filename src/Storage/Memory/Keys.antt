-- ===== src/Storage/Memory/Keys.antt =====
-- The key that a stored record stands for, and what `match` says of it.
use kengen.Base.{Text, text_eq, text_eq_iff, ◌≡◌, ◌↔◌, ap, ◌∙◌, Bool, true, false, ◌&&◌, [], arith}
use kengen.Tuple.Key.{TupleKeyWithoutCondition}
use kengen.Tuple.Split.{split_object, build_object}
use kengen.Tuple.Valid.{is_valid_object, is_valid_user}
use kengen.Tuple.Slices.{lacks, split_object-append}
use kengen.Tuple.Grammar.{ObjectForm-sound}
use kengen.Tuple.Lacks.{lacks_of_plain}
use kengen.Tuple.UserForms.{text_eq-nil, text_eq-append_cons, to_user_parts-valid}
use kengen.Storage.Record.{TupleRecord}
use kengen.Storage.Memory.Match.{matches}

module _ {C : Type 0} where
  abbrev pub key_of : TupleRecord C → TupleKeyWithoutCondition
  key_of r = record {
    object = build_object r.object_type r.object_id;
    relation = r.relation;
    user = r.user;
  }

-- Whether two keys are the same, conditions aside.
unfoldable pub same_key : TupleKeyWithoutCondition → TupleKeyWithoutCondition → Bool
same_key a b = text_eq a.object b.object && (text_eq a.relation b.relation && text_eq a.user b.user)

pub same_key_iff : (a b : TupleKeyWithoutCondition) → (same_key a b ≡ true) ↔ (a ≡ b)
unfolding same_key
same_key_iff a b = ground (
  arith,
  text_eq_iff a.object b.object,
  text_eq_iff a.relation b.relation,
  text_eq_iff a.user b.user,
)

-- What every record that `Write` makes of a valid key satisfies.
pub record WellFormed {C : Type 0} (r : TupleRecord C) : Type 0 where
  pub type_lacks_colon : lacks b':' r.object_type ≡ true
  pub user_some : text_eq r.user [] ≡ false

-- A key that the validation of a write accepts: the relation is not empty, the rest is valid.
pub record ValidKey (k : TupleKeyWithoutCondition) : Type 0 where
  pub object_ok : is_valid_object k.object ≡ true
  pub relation_some : text_eq k.relation [] ≡ false
  pub user_ok : is_valid_user k.user ≡ true

-- The parts of a valid object.
pub split_object-valid :
    (s : Text)
    → is_valid_object s ≡ true
    → (lacks b':' (split_object s).0 ≡ true)
      × (text_eq (split_object s).1 [] ≡ false)
      × (build_object (split_object s).0 (split_object s).1 ≡ s)
      × (text_eq s [] ≡ false)
split_object-valid s h =
    let f = ObjectForm-sound s h in
    let split =
      ap split_object f.split ∙ split_object-append f.t f.id (lacks_of_plain f.t f.t_plain).0 in
    (
      ground (arith, lacks_of_plain f.t f.t_plain),
      ground (arith, text_eq-nil f.id f.id_some),
      ground arith,
      ground (arith, text_eq-append_cons f.t f.id b':'),
    )

-- On a valid key `match` compares object, relation and user for equality.
pub matches_valid :
    {C : Type 0} (r : TupleRecord C) (k : TupleKeyWithoutCondition)
    → WellFormed r
    → ValidKey k
    → matches r k.object k.relation k.user ≡ same_key (key_of r) k
unfolding matches same_key
matches_valid r k w v = ground (
  arith,
  split_object-valid k.object v.object_ok,
  to_user_parts-valid k.user v.user_ok,
  split_object-append r.object_type r.object_id w.type_lacks_colon,
  text_eq_iff (split_object k.object).0 r.object_type,
  text_eq_iff (split_object k.object).1 r.object_id,
  text_eq_iff (build_object r.object_type r.object_id) k.object,
)

-- `match` reads the key alone: records with the same key match alike.
pub matches_same_key :
    {C : Type 0} (r r' : TupleRecord C) (object relation user : Text)
    → WellFormed r
    → WellFormed r'
    → key_of r ≡ key_of r'
    → matches r object relation user ≡ matches r' object relation user
unfolding matches
matches_same_key r r' object relation user w w' e =
    let o = ap (λ (k : TupleKeyWithoutCondition). split_object k.object) e in
    let p = split_object-append r.object_type r.object_id w.type_lacks_colon in
    let q = split_object-append r'.object_type r'.object_id w'.type_lacks_colon in
    let rel = ap (λ (k : TupleKeyWithoutCondition). k.relation) e in
    let usr = ap (λ (k : TupleKeyWithoutCondition). k.user) e in ground arith
