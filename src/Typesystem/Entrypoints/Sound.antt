-- ===== src/Typesystem/Entrypoints/Sound.antt =====
-- pkg/typesystem/typesystem.go: an entrypoint that `hasEntrypoints` finds is one.
use kengen.Base.{
  ℕ, zero, suc, Text, text_eq_refl, ◌≡◌, refl, subst, inl, inr, Bool, true, false, ◌||◌, Option,
  none, some, [], Memᴰ, length, ltb, arith, Bool-cases, Option-cases,
}
use kengen.Typesystem.Model.{
  Userset, unset, this, computed_userset, tuple_to_userset, union, intersection, difference,
  Children, leaf, child, children, Relation, TypeSystem,
}
use kengen.Typesystem.Entrypoints.{
  Visited, value, visit, leave, entered, after, Jump, relation_in, this_loop, tupleset_entry,
  computed_entry, entry_at, union_loop, intersection_loop, entry_rewrite, has_entrypoints,
}
use kengen.Typesystem.Entrypoints.Visits.{same, value-visit}
use kengen.Typesystem.Entrypoints.Entry.{Entry, one, every, both, Each, no_more, one_more}
use kengen.Typesystem.Entrypoints.Spec.{
  Kept, Kept-visit, Kept-leave, Good, GoodAll, Good-leave, Good-visit, Says, Answers, JumpAnswers,
  Says-Answers, Says-left_with, Says-weaken, after-Says, Says-nothing, leave-some,
}
use kengen.Typesystem.Entrypoints.Steps.{
  not_true, this_loop-Says, tupleset_entry-Says, computed_entry-Says,
}

module _ {D : Type 0} (t : TypeSystem D) (jump : Jump) (answers : JumpAnswers t jump)
    (ty r : Text) where
  pub fresh_value : (v : Visited) → value (visit ty r false v) ty r ≡ some false
  fresh_value v =
      rw (value-visit ty r false v ty r) (ground (arith, text_eq_refl ty, text_eq_refl r))

  pub fresh-GoodAll : (v : Visited) → Good t ty r v → GoodAll t (visit ty r false v)
  fresh-GoodAll v g ty' r' h = elim (Bool-cases (same ty r ty' r')) [
    | inl here ↦ absurd (refute (rw (value-visit ty r false v ty' r', here) at h))
    | inr ne ↦ g ty' r' (rw (value-visit ty r false v ty' r', ne) at h) ne
  ]
    where
      refute : ◌≡◌ {A = Option Bool} (some false) (some true) → ⊥
      refute h = cc

  -- The caller's map after the visit, for the operands.
  unfoldable pub operands : Visited → Visited
  operands v = leave v (visit ty r false v)

  pub operands-Kept : (v : Visited) → Kept ty r v (operands v)
  unfolding operands
  operands-Kept v = Kept-leave ty r v (visit ty r false v) (Kept-visit ty r false v)

  pub operands-Good : (v : Visited) → Good t ty r v → Good t ty r (operands v)
  unfolding operands
  operands-Good v g = Good-leave t ty r v (visit ty r false v) (Good-visit t ty r false v g)

  operands-not_true : (v : Visited) → value (operands v) ty r ≡ some true → ⊥
  unfolding operands
  operands-not_true v h =
      not_true t jump answers ty r (visit ty r false v) (fresh_value v)
        (leave-some t v (visit ty r false v) ty r true h)

  mutual
    unfolding entry_at operands

    pub entry_at-Says :
        (d : Relation) (u : Userset) (v : Visited)
        → relation_in t ty r ≡ some d
        → Good t ty r v
        → Says t ty r u v (entry_at t jump ty r d u v)
    entry_at-Says d unset v e g = tt
    entry_at-Says d this v e g =
        Says-left_with t ty r this v (visit ty r false v)
          (this_loop t jump ty r (visit ty r false v) d.directly_related) (Kept-visit ty r false v)
          (this_loop-Says t jump answers ty r d (visit ty r false v) d.directly_related e
            (λ ref m. m) (fresh_value v) (fresh-GoodAll v g))
    entry_at-Says d (computed_userset c) v e g =
        Says-left_with t ty r (computed_userset c) v (visit ty r false v)
          (computed_entry t jump ty r c (visit ty r false v)) (Kept-visit ty r false v)
          (computed_entry-Says t jump answers ty r c (visit ty r false v) (fresh_value v)
            (fresh-GoodAll v g))
    entry_at-Says d (tuple_to_userset y x) v e g =
        Says-left_with t ty r (tuple_to_userset y x) v (visit ty r false v)
          (tupleset_entry t jump ty r y x (visit ty r false v)) (Kept-visit ty r false v)
          (tupleset_entry-Says t jump answers ty r y x (visit ty r false v) (fresh_value v)
            (fresh-GoodAll v g))
    entry_at-Says d (union us) v e g = elim (Bool-cases (ltb (length (children us)) 2)) [
      | inl two ↦ rw (entry_at, two) tt
      | inr enough ↦
          rw (entry_at, enough)
            (Says-weaken t ty r (union us) v (operands v)
              (union_loop t jump ty r d us false (operands v)) (operands-Kept v)
              (union_loop-Says d us us false (operands v) e (λ u m. m) (operands-Good v g)
                (operands-not_true v)))
    ]
    entry_at-Says d (intersection us) v e g = elim (Bool-cases (ltb (length (children us)) 2)) [
      | inl two ↦ rw (entry_at, two) tt
      | inr enough ↦
          rw (entry_at, enough)
            (Says-weaken t ty r (intersection us) v (operands v)
              (intersection_loop t jump ty r d us (operands v)) (operands-Kept v)
              (intersection_loop-Says d us (intersection us) (operands v) e every
                (operands-Good v g)))
    ]
    entry_at-Says d (difference b s) v e g =
        let u : Userset = difference b s in
        let subtract : (v' : Visited)
            → Good t ty r v'
            → Says t ty r s v' (entry_at t jump ty r d s v') =
          λ v' g'. entry_at-Says d s v' e g' in
        Says-weaken t ty r u v (operands v) (entry_at t jump ty r d u v) (operands-Kept v) (
          after-Says t ty r u b (operands v) (entry_at t jump ty r d b (operands v))
            (λ loop v'.
              after (entry_at t jump ty r d s v') (λ loop' v''. entered true false v'')
                (entered false))
            (entered false) (entry_at-Says d b (operands v) e (operands-Good v g))
            (λ loop v' eb k g'.
              Says-weaken t ty r u (operands v) v'
                (after (entry_at t jump ty r d s v') (λ loop' v''. entered true false v'')
                  (entered false))
                k
                (after-Says t ty r u s v' (entry_at t jump ty r d s v')
                  (λ loop' v''. entered true false v'') (entered false) (subtract v' g')
                  (λ loop' v'' es k' g''. (λ _. both eb es, k', g'', λ _. refl))
                  (λ loop' v'' k' g'' m. Says-nothing t ty r u loop' v' v'' k' g'' m)))
            (λ loop v' k g' m. Says-nothing t ty r u loop (operands v) v' k g' m))

    union_loop-Says :
        (d : Relation) (us all_us : Children) (loop : Bool) (v : Visited)
        → relation_in t ty r ≡ some d
        → ((u : Userset) → Memᴰ u (children us) → Memᴰ u (children all_us))
        → Good t ty r v
        → (value v ty r ≡ some true → ⊥)
        → Says t ty r (union all_us) v (union_loop t jump ty r d us loop v)
    union_loop-Says d leaf all_us loop v e sub g m =
        Says-nothing t ty r (union all_us) loop v v (λ ty' r' b h ne. h) g m
    union_loop-Says d (child u us) all_us loop v e sub g m =
        let rest : (loop : Bool) (v' : Visited)
            → Good t ty r v'
            → (value v' ty r ≡ some true → ⊥)
            → Says t ty r (union all_us) v' (union_loop t jump ty r d us loop v') =
          λ loop v' g' m'.
            union_loop-Says d us all_us loop v' e (λ w n. sub w (Memᴰ.tail n)) g' m' in
        after-Says t ty r (union all_us) u v (entry_at t jump ty r d u v)
          (λ l v'. entered true false v') (λ l v'. union_loop t jump ty r d us (loop || l) v')
          (entry_at-Says d u v e g)
          (λ l v' h k g'. (λ _. one u (sub u (Memᴰ.head refl)) h, k, g', λ _. refl))
          (λ l v' k g' m'.
            Says-weaken t ty r (union all_us) v v' (union_loop t jump ty r d us (loop || l) v') k
              (rest (loop || l) v' g' m'))

    intersection_loop-Says :
        (d : Relation) (us : Children) (whole : Userset) (v : Visited)
        → relation_in t ty r ≡ some d
        → (Each t ty r us → Entry t ty r whole)
        → Good t ty r v
        → Says t ty r whole v (intersection_loop t jump ty r d us v)
    intersection_loop-Says d leaf whole v e all_of g =
        (λ _. all_of no_more, λ ty' r' b h ne. h, g, λ _. refl)
    intersection_loop-Says d (child u us) whole v e all_of g =
        let rest : (v' : Visited)
            → Entry t ty r u
            → Good t ty r v'
            → Says t ty r whole v' (intersection_loop t jump ty r d us v') =
          λ v' h g'. intersection_loop-Says d us whole v' e (λ x. all_of (one_more h x)) g' in
        after-Says t ty r whole u v (entry_at t jump ty r d u v)
          (λ l v'. intersection_loop t jump ty r d us v') (entered false) (entry_at-Says d u v e g)
          (λ l v' h k g'.
            Says-weaken t ty r whole v v' (intersection_loop t jump ty r d us v') k (rest v' h g'))
          (λ l v' k g' m. Says-nothing t ty r whole l v v' k g' m)

module _ {D : Type 0} (t : TypeSystem D) where
  entry_rewrite-Says :
      (jump : Jump) (answers : JumpAnswers t jump) (ty r : Text) (u : Userset) (v : Visited)
      → Good t ty r v
      → Says t ty r u v (entry_rewrite t jump ty r u v)
  unfolding entry_rewrite
  entry_rewrite-Says jump answers ty r u v g = elim (Option-cases (relation_in t ty r)) [
    | inl none_there ↦ rw (entry_rewrite, none_there) tt
    | inr (d, there) ↦ rw (entry_rewrite, there) (entry_at-Says t jump answers ty r d u v there g)
  ]

  pub has_entrypoints-Answers : (n : ℕ) → JumpAnswers t (has_entrypoints t n)
  unfolding has_entrypoints
  has_entrypoints-Answers zero v ty r s e new g = tt
  has_entrypoints-Answers (suc n) v ty r s e new g =
      Says-Answers t ty r s v (entry_rewrite t (has_entrypoints t n) ty r s.rewrite v) e new (
        entry_rewrite-Says (has_entrypoints t n) (has_entrypoints-Answers n) ty r s.rewrite v
          (λ ty' r' h ne. g ty' r' h))

  -- If `hasEntrypoints` on a relation that is there, with nothing visited, answers that it has an entrypoint, then its
  -- rewrite has one by the definition of an entrypoint.
  pub has_entrypoints-Entry :
      (n : ℕ) (ty r : Text) (s : Relation) (loop : Bool) (v : Visited)
      → relation_in t ty r ≡ some s
      → has_entrypoints t n [] ty r s.rewrite ≡ entered true loop v
      → Entry t ty r s.rewrite
  has_entrypoints-Entry n ty r s loop v e h =
      (subst (λ res. Answers t ty r s.rewrite [] res) h
          (has_entrypoints-Answers n [] ty r s e (unfold value in refl)
            (λ ty' r' k. absurd (refute (unfold value in k))))).0
        refl
    where
      refute : ◌≡◌ {A = Option Bool} none (some true) → ⊥
      refute h = cc
