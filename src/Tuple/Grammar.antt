-- ===== src/Tuple/Grammar.antt =====
-- What the scanners of pkg/tuple/tuple.go accept, as decompositions of the string.
use kengen.Base.{
  ℕ, ◌+◌, ◌<◌, Text, ◌≡◌, ◌↔◌, refl, ap, Bool, true, false, not, ◌&&◌, [], ◌∷◌, ◌++◌, inl, inr,
  arith, length, all, ltb, ◌==◌, Bool-cases, ==_iff,
}
use kengen.Tuple.Valid.{
  is_control, object_loop, is_valid_object, relation_loop, is_valid_relation, user_id_loop,
  is_valid_user_id,
}

-- No control character, `#`, `:` or space.
abbrev pub plain : ℕ → Bool
plain c = not (is_control c) && (not (c == b'#') && (not (c == b' ') && not (c == b':')))

abbrev pub plain_no_star : ℕ → Bool
plain_no_star c = plain c && not (c == b'*')

abbrev pub plain_no_at : ℕ → Bool
plain_no_at c = plain c && not (c == b'@')

-- `type:id`, both parts of plain characters and not empty
pub record ObjectForm (s : Text) : Type 0 where
  pub t : Text
  pub id : Text
  pub split : s ≡ t ++ (b':' ∷ id)
  pub t_plain : all plain t ≡ true
  pub id_plain : all plain id ≡ true
  pub t_some : 0 < length t
  pub id_some : 0 < length id

pub colon_not_control : is_control b':' ≡ false
unfolding is_control
colon_not_control = refl

pub hash_not_control : is_control b'#' ≡ false
unfolding is_control
hash_not_control = refl

object_loop-id :
    (ndx n : ℕ) (s : Text) → object_loop ndx 1 n s ≡ (all plain s && ltb 0 (n + length s))
unfolding object_loop
object_loop-id ndx n [] = ground arith
object_loop-id ndx n (chr ∷ s) = ground (arith, object_loop-id (ndx + 1) (n + 1) s)

object_loop-type :
    (ndx : ℕ) (t id : Text)
    → all plain t ≡ true
    → all plain id ≡ true
    → 0 < ndx + length t
    → 0 < length id
    → object_loop ndx 0 0 (t ++ (b':' ∷ id)) ≡ true
unfolding object_loop
object_loop-type ndx [] id ht hid nt nid =
    ground (arith, object_loop-id (ndx + 1) 0 id, colon_not_control)
object_loop-type ndx (c ∷ t) id ht hid nt nid = ground (arith, object_loop-type (ndx + 1) t id)

record TypePart (ndx : ℕ) (s : Text) : Type 0 where
  t : Text
  id : Text
  split : s ≡ t ++ (b':' ∷ id)
  t_plain : all plain t ≡ true
  id_plain : all plain id ≡ true
  t_some : 0 < ndx + length t
  id_some : 0 < length id

object_loop_sound : (ndx : ℕ) (s : Text) → object_loop ndx 0 0 s ≡ true → TypePart ndx s
unfolding object_loop
object_loop_sound ndx [] h = absurd (ground arith)
object_loop_sound ndx (c ∷ s) h = elim (Bool-cases (c == b':')) [
  | inl colon ↦ record {
    t = [];
    id = s;
    split = ap (λ z. z ∷ s) ((==_iff c b':').0 colon);
    t_plain = refl;
    id_plain = ground (arith, object_loop-id (ndx + 1) 0 s);
    t_some = ground arith;
    id_some = ground (arith, object_loop-id (ndx + 1) 0 s);
  }
  | inr other ↦
      let p = object_loop_sound (ndx + 1) s (ground arith) in
      record {
        t = c ∷ p.t;
        id = p.id;
        split = ap (λ z. c ∷ z) p.split;
        t_plain = ground arith;
        id_plain = p.id_plain;
        t_some = omega (arith, p.t_some);
        id_some = p.id_some;
      }
]

pub ObjectForm-sound : (s : Text) → is_valid_object s ≡ true → ObjectForm s
unfolding is_valid_object
ObjectForm-sound s h =
    let p = object_loop_sound 0 s h in
    record {
      t = p.t;
      id = p.id;
      split = p.split;
      t_plain = p.t_plain;
      id_plain = p.id_plain;
      t_some = omega (arith, p.t_some);
      id_some = p.id_some;
    }

pub ObjectForm-complete : (s : Text) → ObjectForm s → is_valid_object s ≡ true
unfolding is_valid_object
ObjectForm-complete s f =
    rw f.split
      (object_loop-type 0 f.t f.id f.t_plain f.id_plain (omega (arith, f.t_some)) f.id_some)

-- A string is a valid object exactly when it is `type:id` with both parts not empty and free of
-- control characters, `#`, `:` and spaces.
pub is_valid_object_iff : (s : Text) → (is_valid_object s ≡ true) ↔ ObjectForm s
is_valid_object_iff s = (ObjectForm-sound s, ObjectForm-complete s)

pub relation_loop_lem :
    (n : ℕ) (s : Text) → relation_loop n s ≡ (all plain_no_at s && ltb 0 (n + length s))
unfolding relation_loop
relation_loop_lem n [] = ground arith
relation_loop_lem n (c ∷ s) = ground (arith, relation_loop_lem (n + 1) s)

pub user_id_loop_lem : (n : ℕ) (s : Text) → user_id_loop n s ≡ (all plain s && ltb 0 (n + length s))
unfolding user_id_loop
user_id_loop_lem n [] = ground arith
user_id_loop_lem n (c ∷ s) = ground (arith, user_id_loop_lem (n + 1) s)

-- A relation is valid exactly when it is not empty and has no control character, `#`, `:`, `@` or space.
pub is_valid_relation_iff :
    (s : Text) → (is_valid_relation s ≡ true) ↔ ((all plain_no_at s ≡ true) × (0 < length s))
unfolding is_valid_relation
is_valid_relation_iff s = ground (arith, relation_loop_lem 0 s)

pub is_valid_user_id_iff :
    (s : Text) → (is_valid_user_id s ≡ true) ↔ ((all plain s ≡ true) × (0 < length s))
unfolding is_valid_user_id
is_valid_user_id_iff s = ground (arith, user_id_loop_lem 0 s)
