-- ===== src/Check/Found.antt =====
-- internal/graph/check.go: the records behind what a check reads.
use mathlib.Core.List.Memᴰ
use kengen.Base.{
  Text, text_eq, text_eq_iff, ◌≡◌, refl, sym, ap, ◌∙◌, subst, ◌⊎◌, inl, inr, Bool, true, false,
  ◌&&◌, some, List, [], ◌∷◌, ◌++◌, map, filter, find, any, length, Memᴰ, arith, Bool-cases,
}
use kengen.Tuple.Key.{TupleKey}
use kengen.Tuple.Split.{get_type, split_object_relation, is_wildcard}
use kengen.Tuple.Valid.{is_object_relation, get_user_type_from_user}
use kengen.Tuple.Lacks.{lacks_of_plain_no_star}
use kengen.Tuple.Userset.{UsersetForm-sound}
use kengen.Tuple.UserForms.{userset_split}
use kengen.Typesystem.Lookup.{wildcard_relation_reference}
use kengen.Storage.Record.{TupleRecord, ok}
use kengen.Base.Decimal.{pos}
use kengen.Storage.Memory.Match.{matches}
use kengen.Storage.Memory.Read.{
  ReadFilter, read_slice, read_matches, ReadUsersetTuplesFilter, is_user_set, condition_allowed,
  restriction_loop, userset_step, userset_loop,
}
use kengen.Storage.Memory.Usersets.{fits, allowed_user}
use kengen.Storage.Iterators.Answer.{holds}
use kengen.Validation.Struct.{Fields}
use kengen.Validation.Tuples.{filter_invalid_tuples}
use kengen.Check.Request.{CheckRequest, Checker}
use kengen.Check.Direct.{keys_of, valid_keys, userset_filter, everyone_reference}
use kengen.Check.Dispatches.{given_keys}
use kengen.Check.Derivation.{key_of, Counts}

module _ {A : Type 0} where
  pub find-Memᴰ :
      (p : A → Bool) (xs : List A) (x : A) → find p xs ≡ some x → Memᴰ x xs × (p x ≡ true)
  find-Memᴰ p [] x h = cc
  find-Memᴰ p (y ∷ xs) x h = elim (Bool-cases (p y)) [
    | inl e ↦
        let same : y ≡ x = cc (rw e at h) in (Memᴰ.head (sym same), subst (λ z. p z ≡ true) same e)
    | inr e ↦ let (m, k) = find-Memᴰ p xs x (rw e at h) in (Memᴰ.tail m, k)
  ]

  pub filter-Memᴰ :
      (p : A → Bool) (xs : List A) (x : A) → Memᴰ x (filter p xs) → Memᴰ x xs × (p x ≡ true)
  filter-Memᴰ p [] x m = absurd (Memᴰ.not-nil m)
  filter-Memᴰ p (y ∷ xs) x m = elim (Bool-cases (p y)) [
    | inl e ↦ elim (Memᴰ.cases_cons (rw e at m)) [
      | inl same ↦ (Memᴰ.head same, subst (λ z. p z ≡ true) (sym same) e)
      | inr k ↦ let (n, q) = filter-Memᴰ p xs x k in (Memᴰ.tail n, q)
    ]
    | inr e ↦ let (n, q) = filter-Memᴰ p xs x (rw e at m) in (Memᴰ.tail n, q)
  ]

  pub map-Memᴰ :
      {B : Type 0} (f : A → B) (xs : List A) (y : B)
      → Memᴰ y (map f xs)
      → (x : A) × Memᴰ x xs × (f x ≡ y)
  map-Memᴰ f [] y m = absurd (Memᴰ.not-nil m)
  map-Memᴰ f (x ∷ xs) y m = elim (Memᴰ.cases_cons m) [
    | inl same ↦ (x, Memᴰ.head refl, sym same)
    | inr k ↦ let (z, n, e) = map-Memᴰ f xs y k in (z, Memᴰ.tail n, e)
  ]

pub and-true : (a b : Bool) → (a && b) ≡ true → (a ≡ true) × (b ≡ true)
and-true true b h = (refl, h)
and-true false b h = cc

-- What the loops of `ReadUsersetTuples` add is the record itself, if its user is allowed.
module _ {C : Type 0} where
  restriction_loop-Memᴰ :
      (t r : TupleRecord C) (allowed : List (Text × Text)) (ms : List (TupleRecord C))
      → Memᴰ r (restriction_loop t allowed ms)
      → Memᴰ r ms ⊎ ((r ≡ t) × (any (fits t) allowed ≡ true))
  unfolding restriction_loop
  restriction_loop-Memᴰ t r [] ms m = inl m
  restriction_loop-Memᴰ t r ((typ, rel) ∷ allowed) ms m = elim (Bool-cases (fits t (typ, rel))) [
    | inl e ↦ elim (restriction_loop-Memᴰ t r allowed (ms ++ (t ∷ [])) (rw e at m)) [
      | inl k ↦ elim (Memᴰ.append_cases ms k) [
        | inl n ↦ inl n
        | inr n ↦ inr (Memᴰ.eq_of_singleton n, rw e refl)
      ]
      | inr (same, k) ↦ inr (same, rw e refl)
    ]
    | inr e ↦ elim (restriction_loop-Memᴰ t r allowed ms (rw e at m)) [
      | inl k ↦ inl k
      | inr (same, k) ↦ inr (same, rw e k)
    ]
  ]

  userset_step-Memᴰ :
      (f : ReadUsersetTuplesFilter) (t r : TupleRecord C) (allowed : List (Text × Text))
      (ms : List (TupleRecord C))
      → Memᴰ r (userset_step f t allowed ms)
      → Memᴰ r ms ⊎ ((r ≡ t) × (allowed_user allowed t ≡ true))
  unfolding userset_step
  userset_step-Memᴰ f t r [] ms m = elim (Memᴰ.append_cases ms m) [
    | inl n ↦ inl n
    | inr n ↦ inr (Memᴰ.eq_of_singleton n, refl)
  ]
  userset_step-Memᴰ f t r (a ∷ allowed) ms m =
      elim (Bool-cases (condition_allowed f.conditions t.condition_name)) [
        | inl e ↦ restriction_loop-Memᴰ t r (a ∷ allowed) ms (rw e at m)
        | inr e ↦ restriction_loop-Memᴰ t r (a ∷ allowed) ms (rw e at m)
      ]

  -- The record is in the store, of the object and relation, and its user is an allowed userset or wildcard.
  abbrev pub Found : ReadUsersetTuplesFilter → List (TupleRecord C) → TupleRecord C → Type 0
  Found f ts r =
      Memᴰ r ts
      × (matches r f.object f.relation [] ≡ true)
      × (is_user_set (get_user_type_from_user r.user) ≡ true)
      × (allowed_user f.allowed_user_type_restrictions r ≡ true)

  pub userset_loop-Found :
      (f : ReadUsersetTuplesFilter) (ts ms : List (TupleRecord C)) (r : TupleRecord C)
      → Memᴰ r (userset_loop f ts ms)
      → Memᴰ r ms ⊎ Found f ts r
  unfolding userset_loop
  userset_loop-Found f [] ms r m = inl m
  userset_loop-Found f (t ∷ ts) ms r m =
      elim (Bool-cases
        (matches t f.object f.relation [] && is_user_set (get_user_type_from_user t.user))) [
          | inr e ↦ elim (userset_loop-Found f ts ms r (rw e at m)) [
            | inl k ↦ inl k
            | inr (n, b, u, w) ↦ inr (Memᴰ.tail n, b, u, w)
          ]
          | inl e ↦
              elim (userset_loop-Found f ts (userset_step f t f.allowed_user_type_restrictions ms) r
                (rw e at m)) [
                  | inr (n, b, u, w) ↦ inr (Memᴰ.tail n, b, u, w)
                  | inl k ↦ elim (userset_step-Memᴰ f t r f.allowed_user_type_restrictions ms k) [
                    | inl n ↦ inl n
                    | inr (same, a) ↦
                        let (b, u) = and-true (matches t f.object f.relation []) _ e in
                        inr (
                          Memᴰ.head same,
                          subst (λ z. matches z f.object f.relation [] ≡ true) (sym same) b,
                          subst (λ z. is_user_set (get_user_type_from_user z.user) ≡ true)
                              (sym same) u,
                          subst (λ z. allowed_user f.allowed_user_type_restrictions z ≡ true)
                              (sym same) a,
                        )
                  ]
                ]
        ]

module _ {D P V : Type 0} (c : Checker D P V) (store object relation user : Text) where
  -- A key that a filtered iterator gives is that of a record that counts, if the records read match.
  pub given_keys-Counts :
      (rs : List (TupleRecord Fields)) (tk : TupleKey Fields)
      → ((r : TupleRecord Fields)
          → Memᴰ r rs
          → Memᴰ r (c.datastore.tuples store) × (matches r object relation user ≡ true))
      → Memᴰ tk (given_keys c (keys_of rs))
      → (r : TupleRecord Fields) × Memᴰ r rs
        × (key_of r ≡ tk)
        × Counts c store object relation user r
  given_keys-Counts rs tk from m =
      let (k, good) = filter-Memᴰ (holds c.condition_met) (valid_keys c (keys_of rs)) tk m in
      let (k', fine) =
        filter-Memᴰ (filter_invalid_tuples c.parameters c.convert c.typesys) (keys_of rs) tk k in
      let (r, n, e) = map-Memᴰ key_of rs tk k' in
      let (there, match) = from r n in
      (
        r,
        n,
        e,
        record {
          stored = there;
          matched = match;
          valid =
              subst (λ z. filter_invalid_tuples c.parameters c.convert c.typesys z ≡ true) (sym e)
                fine;
          met = subst (λ z. holds c.condition_met z ≡ true) (sym e) good;
        },
      )

module _ {C : Type 0} where
  pub read_slice_all :
      (ms : List (TupleRecord C))
      → read_slice ms 0 (pos 0) ≡ ok (record { records = ms; continuation_token = [] })
  unfolding read_slice
  read_slice_all ms = ground arith

  everything-matches :
      (r : TupleRecord C) (object relation user : Text)
      → (text_eq object [] && (text_eq relation [] && text_eq user [])) ≡ true
      → matches r object relation user ≡ true
  unfolding matches
  everything-matches r object relation user e = ground (arith, e)

  pub read_matches-Memᴰ :
      (ts : List (TupleRecord C)) (f : ReadFilter) (r : TupleRecord C)
      → Memᴰ r (read_matches ts f)
      → Memᴰ r ts × (matches r f.object f.relation f.user ≡ true)
  unfolding read_matches
  read_matches-Memᴰ ts f r m =
      elim (Bool-cases (text_eq f.object [] && (text_eq f.relation [] && text_eq f.user []))) [
        | inl e ↦ (rw e at m, everything-matches r f.object f.relation f.user e)
        | inr e ↦
            let (n, k) = filter-Memᴰ _ ts r (rw e at m) in
            (n, (and-true (matches r f.object f.relation f.user) _ k).0)
      ]

-- The relation of a userset is not empty.
userset-relation :
    (u : Text) → is_object_relation u ≡ true → text_eq [] (split_object_relation u).1 ≡ false
unfolding is_object_relation
userset-relation u h =
    let f = UsersetForm-sound u h in
    let part : (split_object_relation u).1 ≡ f.relation =
      ap (λ z. (split_object_relation z).1) f.split
      ∙ ap (λ z. z.1)
          (userset_split f.t f.id f.relation
            (lacks_of_plain_no_star f.relation f.relation_plain).1) in
    elim (Bool-cases (text_eq [] (split_object_relation u).1)) [
      | inr different ↦ different
      | inl equal ↦
          let empty : [] ≡ f.relation =
            (text_eq_iff [] (split_object_relation u).1).0 equal ∙ part in
          absurd (omega (arith, f.relation_some, ap length empty))
    ]

module _ {D P V : Type 0} (c : Checker D P V) where
  -- A user that the restriction to everyone of a type fits is the wildcard of the type.
  pub everyone-wildcard :
      (req : CheckRequest) (r : TupleRecord Fields)
      → is_user_set (get_user_type_from_user r.user) ≡ true
      → allowed_user
          (userset_filter c req (everyone_reference req)).allowed_user_type_restrictions
          r
        ≡ true
      → (is_wildcard r.user ≡ true) × (get_type r.user ≡ get_type req.user)
  unfolding get_user_type_from_user wildcard_relation_reference
  everyone-wildcard req r h k = elim (Bool-cases (is_object_relation r.user)) [
    | inl e ↦ ground (arith, userset-relation r.user e)
    | inr e ↦ ground (arith, e, text_eq_iff (get_type req.user) (get_type r.user))
  ]
