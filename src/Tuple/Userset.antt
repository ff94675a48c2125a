-- ===== src/Tuple/Userset.antt =====
-- What the userset scanner of pkg/tuple/tuple.go accepts, as a decomposition of the string.
use kengen.Base.{
  ℕ, ◌+◌, ◌<◌, Text, ◌≡◌, ◌↔◌, refl, ap, ◌∙◌, true, [], ◌∷◌, ◌++◌, inl, inr, arith, length, all,
  ltb, ◌==◌, Bool-cases, ==_iff, ◌&&◌,
}
use kengen.Tuple.Valid.{userset_loop, is_valid_userset}
use kengen.Tuple.Grammar.{plain, plain_no_star, colon_not_control, hash_not_control}

-- `type:id#relation`, each part not empty and of plain characters, with `*` in the type alone
pub record UsersetForm (s : Text) : Type 0 where
  pub t : Text
  pub id : Text
  pub relation : Text
  pub split : s ≡ t ++ (b':' ∷ (id ++ (b'#' ∷ relation)))
  pub t_plain : all plain t ≡ true
  pub id_plain : all plain_no_star id ≡ true
  pub relation_plain : all plain_no_star relation ≡ true
  pub t_some : 0 < length t
  pub id_some : 0 < length id
  pub relation_some : 0 < length relation

userset_loop-relation :
    (ndx i n : ℕ) (s : Text)
    → userset_loop ndx 2 i n s ≡ (all plain_no_star s && ltb 0 (n + length s))
unfolding userset_loop
userset_loop-relation ndx i n [] = ground arith
userset_loop-relation ndx i n (chr ∷ s) =
    ground (arith, userset_loop-relation (ndx + 1) i (n + 1) s)

userset_loop-id :
    (ndx i : ℕ) (id relation : Text)
    → all plain_no_star id ≡ true
    → all plain_no_star relation ≡ true
    → 0 < i + length id
    → 0 < length relation
    → userset_loop ndx 1 i 0 (id ++ (b'#' ∷ relation)) ≡ true
unfolding userset_loop
userset_loop-id ndx i [] relation hid hr ni nr =
    ground (arith, userset_loop-relation (ndx + 1) i 0 relation, hash_not_control)
userset_loop-id ndx i (c ∷ id) relation hid hr ni nr =
    ground (arith, userset_loop-id (ndx + 1) (i + 1) id relation)

userset_loop-type :
    (ndx : ℕ) (t id relation : Text)
    → all plain t ≡ true
    → all plain_no_star id ≡ true
    → all plain_no_star relation ≡ true
    → 0 < ndx + length t
    → 0 < length id
    → 0 < length relation
    → userset_loop ndx 0 0 0 (t ++ (b':' ∷ (id ++ (b'#' ∷ relation)))) ≡ true
unfolding userset_loop
userset_loop-type ndx [] id relation ht hid hr nt ni nr =
    ground (arith, userset_loop-id (ndx + 1) 0 id relation, colon_not_control)
userset_loop-type ndx (c ∷ t) id relation ht hid hr nt ni nr =
    ground (arith, userset_loop-type (ndx + 1) t id relation)

record IdPart (i : ℕ) (s : Text) : Type 0 where
  id : Text
  relation : Text
  split : s ≡ id ++ (b'#' ∷ relation)
  id_plain : all plain_no_star id ≡ true
  relation_plain : all plain_no_star relation ≡ true
  id_some : 0 < i + length id
  relation_some : 0 < length relation

userset_loop-id_sound : (ndx i : ℕ) (s : Text) → userset_loop ndx 1 i 0 s ≡ true → IdPart i s
unfolding userset_loop
userset_loop-id_sound ndx i [] h = absurd (ground arith)
userset_loop-id_sound ndx i (c ∷ s) h = elim (Bool-cases (c == b'#')) [
  | inl hash ↦ record {
    id = [];
    relation = s;
    split = ap (λ z. z ∷ s) ((==_iff c b'#').0 hash);
    id_plain = refl;
    relation_plain = ground (arith, userset_loop-relation (ndx + 1) i 0 s);
    id_some = ground arith;
    relation_some = ground (arith, userset_loop-relation (ndx + 1) i 0 s);
  }
  | inr other ↦
      let p = userset_loop-id_sound (ndx + 1) (i + 1) s (ground arith) in
      record {
        id = c ∷ p.id;
        relation = p.relation;
        split = ap (λ z. c ∷ z) p.split;
        id_plain = ground arith;
        relation_plain = p.relation_plain;
        id_some = omega arith;
        relation_some = p.relation_some;
      }
]

record TypeIdPart (ndx : ℕ) (s : Text) : Type 0 where
  t : Text
  rest : Text
  split : s ≡ t ++ (b':' ∷ rest)
  t_plain : all plain t ≡ true
  t_some : 0 < ndx + length t
  id_part : IdPart 0 rest

userset_loop_sound : (ndx : ℕ) (s : Text) → userset_loop ndx 0 0 0 s ≡ true → TypeIdPart ndx s
unfolding userset_loop
userset_loop_sound ndx [] h = absurd (ground arith)
userset_loop_sound ndx (c ∷ s) h = elim (Bool-cases (c == b':')) [
  | inl colon ↦ record {
    t = [];
    rest = s;
    split = ap (λ z. z ∷ s) ((==_iff c b':').0 colon);
    t_plain = refl;
    t_some = ground arith;
    id_part = userset_loop-id_sound (ndx + 1) 0 s (ground arith);
  }
  | inr other ↦
      let p = userset_loop_sound (ndx + 1) s (ground arith) in
      record {
        t = c ∷ p.t;
        rest = p.rest;
        split = ap (λ z. c ∷ z) p.split;
        t_plain = ground arith;
        t_some = omega (arith, p.t_some);
        id_part = p.id_part;
      }
]

pub UsersetForm-sound : (s : Text) → is_valid_userset s ≡ true → UsersetForm s
unfolding is_valid_userset
UsersetForm-sound s h =
    let p = userset_loop_sound 0 s h in
    let q = p.id_part in
    record {
      t = p.t;
      id = q.id;
      relation = q.relation;
      split = p.split ∙ ap (λ z. p.t ++ (b':' ∷ z)) q.split;
      t_plain = p.t_plain;
      id_plain = q.id_plain;
      relation_plain = q.relation_plain;
      t_some = omega (arith, p.t_some);
      id_some = omega (arith, q.id_some);
      relation_some = q.relation_some;
    }

pub UsersetForm-complete : (s : Text) → UsersetForm s → is_valid_userset s ≡ true
unfolding is_valid_userset
UsersetForm-complete s f = rw f.split (
    userset_loop-type 0 f.t f.id f.relation f.t_plain f.id_plain f.relation_plain
      (omega (arith, f.t_some)) f.id_some f.relation_some)

-- A string is a valid userset exactly when it is `type:id#relation`, each part not empty and free
-- of control characters, `#`, `:` and spaces, and with no `*` in the id and the relation.
pub is_valid_userset_iff : (s : Text) → (is_valid_userset s ≡ true) ↔ UsersetForm s
is_valid_userset_iff s = (UsersetForm-sound s, UsersetForm-complete s)
