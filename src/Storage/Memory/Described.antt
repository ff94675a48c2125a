-- ===== src/Storage/Memory/Described.antt =====
-- pkg/storage/memory/memory.go: the tuples that a `ReadFilter` describes, without the tests of `read` and `match`.
use mathlib.Core.List.Memᴰ
use kengen.Base.{
  ◌||◌, append_assoc, Text, text_eq, text_eq_iff, has_prefix, ◌≡◌, ◌≢◌, refl, sym, ◌∙◌, ◌↔◌, ◌⊎◌,
  inl, inr, Bool, true, false, ◌&&◌, List, [], ◌∷◌, ◌++◌, Memᴰ, Selected, filter-Selected,
  Selected_all, if◌then◌else◌, Bool-cases, arith,
}
use kengen.Tuple.Split.{split_object, to_user_parts}
use kengen.Storage.Record.{TupleRecord}
use kengen.Storage.Memory.Match.{matches}
use kengen.Storage.Memory.Read.{ReadFilter, read_matches, condition_allowed, contains_text}

-- The filter has no object, no relation and no user.
abbrev pub NoKey : ReadFilter → Type 0
NoKey f = (f.object ≡ []) × (f.relation ≡ []) × (f.user ≡ [])

prefix_iff : (p s : Text) → (has_prefix s p ≡ true) ↔ ((rest : Text) × (s ≡ p ++ rest))
unfolding has_prefix
prefix_iff [] s = (λ h. (s, refl), λ h. refl)
prefix_iff (b ∷ p) [] = (λ h. absurd (ground (arith, h)), λ (rest, e). absurd (refute rest e))
  where
    refute : (rest : Text) → [] ≡ b ∷ (p ++ rest) → ⊥
    refute rest e = cc
prefix_iff (b ∷ p) (a ∷ s) = (
  λ h.
      let (rest, e) = (prefix_iff p s).0 (ground (arith, h)) in
      let same : a ≡ b = ground (arith, h) in (rest, λ i. same i ∷ e i),
  λ (rest, e).
      let tails : has_prefix s p ≡ true = (prefix_iff p s).1 (rest, cc e) in
      let same : a ≡ b = cc e in ground (arith, tails, same),
)

contains_iff :
    (conditions : List Text) (name : Text)
    → (contains_text conditions name ≡ true) ↔ Memᴰ name conditions
contains_iff [] name = (λ h. absurd (refute h), λ m. absurd (Memᴰ.not-nil m))
  where
    refute : false ≡ true → ⊥
    refute h = cc
contains_iff (c ∷ cs) name = (to (contains_iff cs name).0, from (contains_iff cs name).1)
  where
    to :
        (contains_text cs name ≡ true → Memᴰ name cs)
        → contains_text (c ∷ cs) name ≡ true
        → Memᴰ name (c ∷ cs)
    to k h = elim (Bool-cases (text_eq c name)) [
      | inl e ↦ Memᴰ.head (sym ((text_eq_iff c name).0 e))
      | inr e ↦ Memᴰ.tail (k (rw e at h))
    ]

    from :
        (Memᴰ name cs → contains_text cs name ≡ true)
        → Memᴰ name (c ∷ cs)
        → contains_text (c ∷ cs) name ≡ true
    from k (Memᴰ.head e) = ground (arith, (text_eq_iff c name).1 (sym e))
    from k (Memᴰ.tail m) = ground (arith, k m)

condition_iff :
    (conditions : List Text) (name : Text)
    → (condition_allowed conditions name ≡ true) ↔ ((conditions ≡ []) ⊎ Memᴰ name conditions)
condition_iff [] name = (λ h. inl refl, λ h. refl)
condition_iff (c ∷ cs) name = (λ h. inr ((contains_iff (c ∷ cs) name).0 h), from)
  where
    from : ((c ∷ cs) ≡ []) ⊎ Memᴰ name (c ∷ cs) → contains_text (c ∷ cs) name ≡ true
    from (inl e) = absurd (refute e)
      where
        refute : ((c ∷ cs) ≡ []) → ⊥
        refute e = cc
    from (inr m) = (contains_iff (c ∷ cs) name).1 m

key_test :
    (f : ReadFilter)
    → (text_eq f.object [] && (text_eq f.relation [] && text_eq f.user [])) ≡ false
    → NoKey f
    → ⊥
key_test f keyed (o, r, u) = ground (
  arith,
  keyed,
  (text_eq_iff f.object []).1 o,
  (text_eq_iff f.relation []).1 r,
  (text_eq_iff f.user []).1 u,
)

module _ {C : Type 0} where
  -- No object, the object's type and id, or its type alone.
  abbrev pub FitsObject : Text → TupleRecord C → Type 0
  FitsObject object t =
      (object ≡ [])
      ⊎ ((split_object object).0 ≡ t.object_type)
        × (((split_object object).1 ≡ []) ⊎ ((split_object object).1 ≡ t.object_id))

  -- No user, the user itself, or a type with no id, which the user starts with.
  abbrev pub FitsUser : Text → TupleRecord C → Type 0
  FitsUser user t =
      (user ≡ [])
      ⊎ ((to_user_parts user).1 ≢ []) × (t.user ≡ user)
      ⊎ ((to_user_parts user).1 ≡ [])
        × ((id : Text) × (t.user ≡ (to_user_parts user).0 ++ (b':' ∷ id)))

  -- The conditions are not looked at where the filter has no key.
  pub record Described (f : ReadFilter) (t : TupleRecord C) : Type 0 where
    pub object : FitsObject f.object t
    pub relation : (f.relation ≡ []) ⊎ (t.relation ≡ f.relation)
    pub user : FitsUser f.user t
    pub condition : NoKey f ⊎ (f.conditions ≡ []) ⊎ Memᴰ t.condition_name f.conditions

  abbrev object_test : Text → TupleRecord C → Bool
  object_test object t =
      text_eq object []
      || (text_eq (split_object object).0 t.object_type
          && (text_eq (split_object object).1 [] || text_eq (split_object object).1 t.object_id))

  abbrev user_test : Text → TupleRecord C → Bool
  user_test user t =
      text_eq user []
      || (if text_eq (to_user_parts user).1 []
          then has_prefix t.user ((to_user_parts user).0 ++ (b':' ∷ []))
          else text_eq t.user user)

  object_iff :
      (object : Text) (t : TupleRecord C) → (object_test object t ≡ true) ↔ FitsObject object t
  object_iff object t = ground (
    arith,
    text_eq_iff object [],
    text_eq_iff (split_object object).0 t.object_type,
    text_eq_iff (split_object object).1 [],
    text_eq_iff (split_object object).1 t.object_id,
  )

  user_iff : (user : Text) (t : TupleRecord C) → (user_test user t ≡ true) ↔ FitsUser user t
  user_iff user t =
      let (user_type, id, relation) = to_user_parts user in
      let (to, from) = prefix_iff (user_type ++ (b':' ∷ [])) t.user in
      let prefix : (has_prefix t.user (user_type ++ (b':' ∷ [])) ≡ true)
          ↔ ((rest : Text) × (t.user ≡ user_type ++ (b':' ∷ rest))) =
        (
          λ h. let (rest, e) = to h in (rest, e ∙ append_assoc user_type (b':' ∷ []) rest),
          λ (rest, e). from (rest, e ∙ sym (append_assoc user_type (b':' ∷ []) rest)),
        ) in
      ground (arith, prefix, text_eq_iff user [], text_eq_iff id [], text_eq_iff t.user user)

  matches-tests :
      (object relation user : Text) (t : TupleRecord C)
      → matches t object relation user ≡ (
          object_test object t
          && (text_eq relation [] || text_eq t.relation relation)
          && user_test user t)
  unfolding matches
  matches-tests object relation user t = ground (arith, text_eq_iff object [], text_eq_iff user [])

  tests-Described :
      (f : ReadFilter) (t : TupleRecord C)
      → (text_eq f.object [] && (text_eq f.relation [] && text_eq f.user [])) ≡ false
      → ((matches t f.object f.relation f.user && condition_allowed f.conditions t.condition_name)
          ≡ true)
        ↔ Described f t
  tests-Described f t keyed =
      let (obj, obj') = object_iff f.object t in
      let (usr, usr') = user_iff f.user t in
      let (cond, cond') = condition_iff f.conditions t.condition_name in
      let tests = matches-tests f.object f.relation f.user t in
      (
        λ h. record {
          object = obj (ground (arith, h, tests));
          relation =
              ground
                (arith, h, tests, text_eq_iff f.relation [], text_eq_iff t.relation f.relation);
          user = usr (ground (arith, h, tests));
          condition = inr (cond (ground (arith, h)));
        },
        λ d.
            let o = obj' d.object in
            let u = usr' d.user in
            let r : (text_eq f.relation [] || text_eq t.relation f.relation) ≡ true =
              ground
                (arith, d.relation, text_eq_iff f.relation [], text_eq_iff t.relation f.relation) in
            let c : condition_allowed f.conditions t.condition_name ≡ true = elim d.condition [
              | inl k ↦ absurd (key_test f keyed k)
              | inr k ↦ cond' k
            ] in
            ground (arith, o, u, r, c, tests),
      )

  NoKey-Described : (f : ReadFilter) (t : TupleRecord C) → NoKey f → Described f t
  NoKey-Described f t (o, r, u) = record {
    object = inl o;
    relation = inl r;
    user = inl u;
    condition = inl (o, r, u);
  }

  -- What `read` finds.
  pub read_matches-Described :
      (f : ReadFilter) (ts : List (TupleRecord C)) → Selected (Described f) ts (read_matches ts f)
  unfolding read_matches
  read_matches-Described f ts =
      elim (Bool-cases (text_eq f.object [] && (text_eq f.relation [] && text_eq f.user []))) [
        | inl e ↦
            rw (read_matches, e)
              (Selected_all (Described f)
                (λ t. NoKey-Described f t (
                  ground (
                    arith,
                    e,
                    text_eq_iff f.object [],
                    text_eq_iff f.relation [],
                    text_eq_iff f.user [],
                  )))
                ts)
        | inr e ↦
            rw (read_matches, e) (filter-Selected (Described f) _ (λ t. tests-Described f t e) ts)
      ]
