-- ===== src/Typesystem/Entrypoints/Steps.antt =====
-- pkg/typesystem/typesystem.go: what `hasEntrypoints` answers for a rewrite with no operands.
use kengen.Base.{
  Text, ◌≡◌, refl, sym, ap, ◌∙◌, inl, inr, Bool, true, false, not, ◌||◌, Option, some, List, [],
  ◌∷◌, Memᴰ, Bool-cases, Option-cases,
}
use kengen.Typesystem.Model.{
  Userset, this, computed_userset, tuple_to_userset, RelationReference, relation_of, has_wildcard,
  has_target, Relation, TypeSystem,
}
use kengen.Typesystem.Entrypoints.{
  Visited, value, EntryResult, entered, undefined_relation, too_few_children, unknown_rewrite,
  no_fuel, Jump, relation_in, this_loop, tupleset_loop, tupleset_entry, computed_entry,
}
use kengen.Typesystem.Entrypoints.Entry.{Entry, direct, userset, computed, from}
use kengen.Typesystem.Entrypoints.Spec.{
  KeptAll, Kept-visit, GoodAll, Good-visit, Says, Answers, JumpAnswers, Says-weaken, after-Answers,
  Says-nothing,
}

module _ {D : Type 0} (t : TypeSystem D) (jump : Jump) (answers : JumpAnswers t jump)
    (ty r : Text) where
  pub not_true : (v : Visited) → value v ty r ≡ some false → value v ty r ≡ some true → ⊥
  not_true v e k = refute (sym e ∙ k)
    where
      refute : ◌≡◌ {A = Option Bool} (some false) (some true) → ⊥
      refute h = cc

  -- The answer for another relation is passed on.
  pass_on :
      (ty' r' : Text) (u w : Userset) (v : Visited) (res : EntryResult)
      → Answers t ty' r' w v res
      → (Entry t ty' r' w → Entry t ty r u)
      → value v ty r ≡ some false
      → Says t ty r u v res
  pass_on ty' r' u w v (entered has loop v') (h, k, g) f e = (
    λ x. f (h x),
    λ ty1 r1 b j ne. k ty1 r1 b j,
    λ ty1 r1 j ne. g ty1 r1 j,
    λ x. absurd (not_true v' (k ty r false e) x),
  )
  pass_on ty' r' u w v (undefined_relation ty1 r1) h f e = tt
  pass_on ty' r' u w v too_few_children h f e = tt
  pass_on ty' r' u w v unknown_rewrite h f e = tt
  pass_on ty' r' u w v no_fuel h f e = tt

  pub this_loop-Says :
      (d : Relation) (v : Visited) (refs : List RelationReference)
      → relation_in t ty r ≡ some d
      → ((ref : RelationReference) → Memᴰ ref refs → Memᴰ ref d.directly_related)
      → value v ty r ≡ some false
      → GoodAll t v
      → Says t ty r this v (this_loop t jump ty r v refs)
  unfolding this_loop
  this_loop-Says d v [] e sub f g =
      Says-nothing t ty r this false v v (λ ty' r' b h ne. h) (λ ty' r' h ne. g ty' r' h)
        (not_true v f)
  this_loop-Says d v (ref ∷ refs) e sub f g =
      let at = relation_of ref.target in
      let more : (b : Bool) (v' : Visited)
          → KeptAll v v'
          → GoodAll t v'
          → Says t ty r this v (this_loop t jump ty r v' refs) =
        λ b v' k g'.
          Says-weaken t ty r this v v' (this_loop t jump ty r v' refs)
            (λ ty' r' b h ne. k ty' r' b h)
            (this_loop-Says d v' refs e (λ x m. sub x (Memᴰ.tail m)) (k ty r false f) g') in
      elim (Bool-cases (not (has_target ref.target) || has_wildcard ref.target)) [
        | inl plain ↦ rw plain (
          λ _. direct d ref e (sub ref (Memᴰ.head refl)) plain,
          Kept-visit ty r true v,
          Good-visit t ty r true v (λ ty' r' h ne. g ty' r' h),
          λ _. refl,
        )
        | inr other ↦ elim (Option-cases (relation_in t ref.object_type at)) [
          | inl none_there ↦ rw (other, none_there) tt
          | inr (s, there) ↦ elim (Option-cases (value v ref.object_type at)) [
            | inr (b, seen) ↦ rw (other, there, seen) (more false v (λ ty' r' b h. h) g)
            | inl new ↦
                rw (other, there, new)
                  (after-Answers t ty r ref.object_type at this s.rewrite v
                    (jump v ref.object_type at s.rewrite) (λ loop v'. entered true false v')
                    (λ loop v'. this_loop t jump ty r v' refs)
                    (answers v ref.object_type at s there new g)
                    (λ loop v' h k g'. (
                      λ _. userset d ref s e (sub ref (Memᴰ.head refl)) there h,
                      λ ty' r' b h ne. k ty' r' b h,
                      λ ty' r' h ne. g' ty' r' h,
                      λ _. refl,
                    ))
                    more)
          ]
        ]
      ]

  tupleset_loop-Says :
      (y x : Text) (d : Relation) (v : Visited) (refs : List RelationReference)
      → relation_in t ty y ≡ some d
      → ((ref : RelationReference) → Memᴰ ref refs → Memᴰ ref d.directly_related)
      → value v ty r ≡ some false
      → GoodAll t v
      → Says t ty r (tuple_to_userset y x) v (tupleset_loop t jump ty r x v refs)
  unfolding tupleset_loop
  tupleset_loop-Says y x d v [] e sub f g =
      Says-nothing t ty r (tuple_to_userset y x) false v v (λ ty' r' b h ne. h)
        (λ ty' r' h ne. g ty' r' h) (not_true v f)
  tupleset_loop-Says y x d v (ref ∷ refs) e sub f g =
      let u : Userset = tuple_to_userset y x in
      let more : (b : Bool) (v' : Visited)
          → KeptAll v v'
          → GoodAll t v'
          → Says t ty r u v (tupleset_loop t jump ty r x v' refs) =
        λ b v' k g'.
          Says-weaken t ty r u v v' (tupleset_loop t jump ty r x v' refs)
            (λ ty' r' b h ne. k ty' r' b h)
            (tupleset_loop-Says y x d v' refs e (λ z m. sub z (Memᴰ.tail m)) (k ty r false f) g') in
      elim (Option-cases (relation_in t ref.object_type x)) [
        | inl none_there ↦ rw (tupleset_loop, none_there) (more false v (λ ty' r' b h. h) g)
        | inr (s, there) ↦ elim (Option-cases (value v ref.object_type x)) [
          | inr (true, seen) ↦
              let (s', there', h) = g ref.object_type x seen in
              rw (tupleset_loop, there, seen)
                (
                  λ _. from d ref s' e (sub ref (Memᴰ.head refl)) there' h,
                  λ ty' r' b h ne. h,
                  λ ty' r' h ne. g ty' r' h,
                  λ _. refl,
                )
          | inr (false, seen) ↦ rw (tupleset_loop, there, seen) (more false v (λ ty' r' b h. h) g)
          | inl new ↦
              rw (tupleset_loop, there, new)
                (after-Answers t ty r ref.object_type x u s.rewrite v
                  (jump v ref.object_type x s.rewrite) (λ loop v'. entered true false v')
                  (λ loop v'. tupleset_loop t jump ty r x v' refs)
                  (answers v ref.object_type x s there new g)
                  (λ loop v' h k g'. (
                    λ _. from d ref s e (sub ref (Memᴰ.head refl)) there h,
                    λ ty' r' b h ne. k ty' r' b h,
                    λ ty' r' h ne. g' ty' r' h,
                    λ _. refl,
                  ))
                  more)
        ]
      ]

  pub tupleset_entry-Says :
      (y x : Text) (v : Visited)
      → value v ty r ≡ some false
      → GoodAll t v
      → Says t ty r (tuple_to_userset y x) v (tupleset_entry t jump ty r y x v)
  unfolding tupleset_entry
  tupleset_entry-Says y x v f g = elim (Option-cases (relation_in t ty y)) [
    | inl none_there ↦ rw (tupleset_entry, none_there) tt
    | inr (s, there) ↦
        rw (tupleset_entry, there)
          (tupleset_loop-Says y x s v s.directly_related there (λ ref m. m) f g)
  ]

  pub computed_entry-Says :
      (c : Text) (v : Visited)
      → value v ty r ≡ some false
      → GoodAll t v
      → Says t ty r (computed_userset c) v (computed_entry t jump ty r c v)
  unfolding computed_entry
  computed_entry-Says c v f g = elim (Option-cases (relation_in t ty c)) [
    | inl none_there ↦ rw (computed_entry, none_there) tt
    | inr (s, there) ↦ elim (Option-cases (value v ty c)) [
      | inr (b, seen) ↦
          rw (computed_entry, there, seen)
            (
              λ h. from_value b seen h,
              λ ty' r' b h ne. h,
              λ ty' r' h ne. g ty' r' h,
              λ h. absurd (not_true v f h),
            )
      | inl new ↦
          rw (computed_entry, there, new)
            (pass_on ty c (computed_userset c) s.rewrite v (jump v ty c s.rewrite)
              (answers v ty c s there new g) (computed s there) f)
    ]
  ]
    where
      from_value : (b : Bool) → value v ty c ≡ some b → b ≡ true → Entry t ty r (computed_userset c)
      from_value b seen h = let (s, there, k) = g ty c (seen ∙ ap some h) in computed s there k
