-- ===== src/Tuple/ParsePrint.antt =====
-- `ParseTupleString` and `TupleKeyToString` of pkg/tuple/tuple.go undo one another.
use kengen.Base.{
  ℕ, zero, suc, Text, ◌≡◌, ◌↔◌, ap, true, none, some, [], ◌∷◌, ◌++◌, inl, inr, arith, take, drop,
  Option-cases,
}
use kengen.Tuple.Key.{TupleKey, new_tuple_key}
use kengen.Tuple.Split.{index_byte, cut}
use kengen.Tuple.Valid.{is_valid_object, is_valid_relation, is_valid_user}
use kengen.Tuple.Parse.{ok, tuple_key_to_string, parse_relation, parse_tuple_string}
use kengen.Tuple.Slices.{cut-append}
use kengen.Tuple.Grammar.{is_valid_relation_iff}
use kengen.Tuple.Lacks.{lacks_at, object_lacks_hash}

index_byte-split :
    (c : ℕ) (s : Text) (i : ℕ) → index_byte c s ≡ some i → s ≡ take i s ++ (c ∷ drop (suc i) s)
unfolding index_byte
index_byte-split c [] i h = ground arith
index_byte-split c (x ∷ s) zero h = ground arith
index_byte-split c (x ∷ s) (suc i) h = ap (λ z. x ∷ z) (index_byte-split c s i (ground arith))

cut-split : (c : ℕ) (s a b : Text) → cut c s ≡ some (a, b) → s ≡ a ++ (c ∷ b)
unfolding cut
cut-split c s a b h = elim (Option-cases (index_byte c s)) [
  | inl e ↦ absurd (ground arith)
  | inr (i, e) ↦ ground (arith, index_byte-split c s i)
]

module _ {C : Type 0} where
  -- The parts of a string that parses.
  pub record Parsed (s : Text) (tk : TupleKey C) : Type 0 where
    pub object_ok : is_valid_object tk.object ≡ true
    pub relation_ok : is_valid_relation tk.relation ≡ true
    pub user_ok : is_valid_user tk.user ≡ true
    pub printed : s ≡ tuple_key_to_string tk.object tk.relation tk.user
    pub bare : tk.condition ≡ none

  parse_relation-ok :
      (obj rhs : Text) (tk : TupleKey C)
      → parse_relation obj rhs ≡ ok tk
      → (rel : Text) × (usr : Text) × (rhs ≡ rel ++ (b'@' ∷ usr))
        × (is_valid_relation rel ≡ true)
        × (is_valid_user usr ≡ true)
        × (tk ≡ new_tuple_key obj rel usr)
  unfolding parse_relation
  parse_relation-ok obj rhs tk h = elim (Option-cases (cut b'@' rhs)) [
    | inl e ↦ absurd (ground arith)
    | inr ((rel, usr), e) ↦
        (rel, usr, cut-split b'@' rhs rel usr e, ground arith, ground arith, ground arith)
  ]

  Parsed-sound : (s : Text) (tk : TupleKey C) → parse_tuple_string s ≡ ok tk → Parsed s tk
  unfolding parse_tuple_string tuple_key_to_string
  Parsed-sound s tk h = elim (Option-cases (cut b'#' s)) [
    | inl e ↦ absurd (ground arith)
    | inr ((obj, rhs), e) ↦
        let (rel, usr, split, rel_ok, usr_ok, eq) = parse_relation-ok obj rhs tk (ground arith) in
        let whole = cut-split b'#' s obj rhs e in
        record {
          object_ok = ground arith;
          relation_ok = ground arith;
          user_ok = ground arith;
          printed = ground arith;
          bare = ground arith;
        }
  ]

  Parsed-complete : (s : Text) (tk : TupleKey C) → Parsed s tk → parse_tuple_string s ≡ ok tk
  unfolding parse_tuple_string parse_relation tuple_key_to_string
  Parsed-complete s tk p = ground (
    arith,
    cut-append b'#' tk.object (tk.relation ++ (b'@' ∷ tk.user)),
    cut-append b'@' tk.relation tk.user,
    object_lacks_hash tk.object p.object_ok,
    lacks_at tk.relation,
    is_valid_relation_iff tk.relation,
  )

-- A string parses to a tuple key exactly when it is the key's printed form, the key's object,
-- relation and user are valid, and the key has no condition.
pub parse_tuple_string_iff :
    {C : Type 0} (s : Text) (tk : TupleKey C) → (parse_tuple_string s ≡ ok tk) ↔ Parsed s tk
parse_tuple_string_iff s tk = (Parsed-sound s tk, Parsed-complete s tk)
