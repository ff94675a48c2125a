-- ===== src/Typesystem/Entrypoints/Ends.antt =====
-- pkg/typesystem/typesystem.go: how much fuel `hasEntrypoints` takes.
use kengen.Base.{
  ℕ, zero, suc, ◌≤◌, Text, ◌≡◌, refl, inl, inr, Bool, true, false, ◌||◌, Option, none, some, [],
  length, ltb, arith, Bool-cases, length-filter_le,
}
use kengen.Typesystem.Model.{
  Userset, unset, this, computed_userset, tuple_to_userset, union, intersection, difference,
  Children, leaf, child, children, Relation, TypeSystem,
}
use kengen.Typesystem.Entrypoints.{
  Visited, value, visit, entered, after, Jump, relation_in, this_loop, tupleset_entry,
  computed_entry, entry_at, union_loop, intersection_loop, entry_rewrite, has_entrypoints,
}
use kengen.Typesystem.Entrypoints.Spec.{Kept, Good, JumpAnswers}
use kengen.Typesystem.Entrypoints.Sound.{
  fresh-GoodAll, operands, operands-Kept, operands-Good, entry_at-Says, has_entrypoints-Answers,
}
use kengen.Typesystem.Entrypoints.Enough.{
  Ends, left_with-Ends, is_new, fresh_count-visit, Kept-le, all_relations, lookup-all_relations,
}
use kengen.Typesystem.Entrypoints.StepsEnd.{
  keys, JumpEnds, Few, after-Says-Ends, this_loop-Ends, tupleset_entry-Ends, computed_entry-Ends,
}

module _ {D : Type 0} (t : TypeSystem D) (jump : Jump) (answers : JumpAnswers t jump) (m : ℕ)
    (jump_ends : JumpEnds t m jump) (ty r : Text) where
  -- After the visit at most `m` relations are left.
  abbrev FewVisited : Visited → Type 0
  FewVisited v = Few t jump answers m jump_ends ty r (visit ty r false v)

  Few-Kept : (v v' : Visited) → Kept ty r v v' → FewVisited v → FewVisited v'
  Few-Kept v v' k h = omega (arith, Kept-le (keys t) ty r v v' k)

  mutual
    unfolding entry_at operands

    entry_at-Ends :
        (d : Relation) (u : Userset) (v : Visited)
        → relation_in t ty r ≡ some d
        → Good t ty r v
        → FewVisited v
        → Ends (entry_at t jump ty r d u v)
    entry_at-Ends d unset v e g h = tt
    entry_at-Ends d this v e g h =
        left_with-Ends v (this_loop t jump ty r (visit ty r false v) d.directly_related) (
          this_loop-Ends t jump answers m jump_ends ty r (visit ty r false v) d.directly_related
            (fresh-GoodAll t jump answers ty r v g) h)
    entry_at-Ends d (computed_userset c) v e g h =
        left_with-Ends v (computed_entry t jump ty r c (visit ty r false v)) (
          computed_entry-Ends t jump answers m jump_ends ty r c (visit ty r false v)
            (fresh-GoodAll t jump answers ty r v g) h)
    entry_at-Ends d (tuple_to_userset y x) v e g h =
        left_with-Ends v (tupleset_entry t jump ty r y x (visit ty r false v)) (
          tupleset_entry-Ends t jump answers m jump_ends ty r y x (visit ty r false v)
            (fresh-GoodAll t jump answers ty r v g) h)
    entry_at-Ends d (union us) v e g h =
        let w = operands t jump answers ty r v in
        let loop : Ends (union_loop t jump ty r d us false w) =
          union_loop-Ends d us false w e (operands-Good t jump answers ty r v g)
            (Few-Kept v w (operands-Kept t jump answers ty r v) h) in
        elim (Bool-cases (ltb (length (children us)) 2)) [
          | inl two ↦ rw (entry_at, two) tt
          | inr two ↦ rw (entry_at, two) loop
        ]
    entry_at-Ends d (intersection us) v e g h =
        let w = operands t jump answers ty r v in
        let loop : Ends (intersection_loop t jump ty r d us w) =
          intersection_loop-Ends d us w e (operands-Good t jump answers ty r v g)
            (Few-Kept v w (operands-Kept t jump answers ty r v) h) in
        elim (Bool-cases (ltb (length (children us)) 2)) [
          | inl two ↦ rw (entry_at, two) tt
          | inr two ↦ rw (entry_at, two) loop
        ]
    entry_at-Ends d (difference b s) v e g h =
        let w = operands t jump answers ty r v in
        let gw = operands-Good t jump answers ty r v g in
        let hw = Few-Kept v w (operands-Kept t jump answers ty r v) h in
        let subtract : (v' : Visited)
            → Good t ty r v'
            → FewVisited v'
            → Ends (entry_at t jump ty r d s v') =
          λ v' g' h'. entry_at-Ends d s v' e g' h' in
        after-Says-Ends t ty r b w (entry_at t jump ty r d b w)
          (λ loop v'.
            after (entry_at t jump ty r d s v') (λ loop' v''. entered true false v'')
              (entered false))
          (entered false) (entry_at-Ends d b w e gw hw)
          (entry_at-Says t jump answers ty r d b w e gw)
          (λ loop v' k g'.
            after-Says-Ends t ty r s v' (entry_at t jump ty r d s v')
              (λ loop' v''. entered true false v'') (entered false)
              (subtract v' g' (Few-Kept w v' k hw)) (entry_at-Says t jump answers ty r d s v' e g')
              (λ loop' v'' k' g''. tt) (λ loop' v'' k' g''. tt))
          (λ loop v' k g'. tt)

    union_loop-Ends :
        (d : Relation) (us : Children) (loop : Bool) (v : Visited)
        → relation_in t ty r ≡ some d
        → Good t ty r v
        → FewVisited v
        → Ends (union_loop t jump ty r d us loop v)
    union_loop-Ends d leaf loop v e g h = tt
    union_loop-Ends d (child u us) loop v e g h =
        let rest : (loop : Bool) (v' : Visited)
            → Good t ty r v'
            → FewVisited v'
            → Ends (union_loop t jump ty r d us loop v') =
          λ loop v' g' h'. union_loop-Ends d us loop v' e g' h' in
        after-Says-Ends t ty r u v (entry_at t jump ty r d u v) (λ l v'. entered true false v')
          (λ l v'. union_loop t jump ty r d us (loop || l) v') (entry_at-Ends d u v e g h)
          (entry_at-Says t jump answers ty r d u v e g) (λ l v' k g'. tt)
          (λ l v' k g'. rest (loop || l) v' g' (Few-Kept v v' k h))

    intersection_loop-Ends :
        (d : Relation) (us : Children) (v : Visited)
        → relation_in t ty r ≡ some d
        → Good t ty r v
        → FewVisited v
        → Ends (intersection_loop t jump ty r d us v)
    intersection_loop-Ends d leaf v e g h = tt
    intersection_loop-Ends d (child u us) v e g h =
        let rest : (v' : Visited)
            → Good t ty r v'
            → FewVisited v'
            → Ends (intersection_loop t jump ty r d us v') =
          λ v' g' h'. intersection_loop-Ends d us v' e g' h' in
        after-Says-Ends t ty r u v (entry_at t jump ty r d u v)
          (λ l v'. intersection_loop t jump ty r d us v') (entered false)
          (entry_at-Ends d u v e g h) (entry_at-Says t jump answers ty r d u v e g)
          (λ l v' k g'. rest v' g' (Few-Kept v v' k h)) (λ l v' k g'. tt)

module _ {D : Type 0} (t : TypeSystem D) where
  has_entrypoints-JumpEnds : (n : ℕ) → JumpEnds t n (has_entrypoints t n)
  unfolding has_entrypoints entry_rewrite
  has_entrypoints-JumpEnds zero v ty r s e new g h =
      omega
        (arith, fresh_count-visit (keys t) ty r v (lookup-all_relations t.relations ty r s e) new)
  has_entrypoints-JumpEnds (suc n) v ty r s e new g h =
      rw (entry_rewrite, e)
        (entry_at-Ends t (has_entrypoints t n) (has_entrypoints-Answers t n) n
          (has_entrypoints-JumpEnds n) ty r s s.rewrite v e (λ ty' r' k ne. g ty' r' k)
          (omega (
            arith,
            fresh_count-visit (keys t) ty r v (lookup-all_relations t.relations ty r s e) new,
          )))

  -- With at least as much fuel as the model has relations, `hasEntrypoints` on a relation, with nothing visited, ends.
  pub has_entrypoints-Ends :
      (n : ℕ) (ty r : Text) (s : Relation)
      → relation_in t ty r ≡ some s
      → length (all_relations t.relations) ≤ n
      → Ends (has_entrypoints t n [] ty r s.rewrite)
  has_entrypoints-Ends n ty r s e h =
      has_entrypoints-JumpEnds n [] ty r s e (unfold value in refl)
        (λ ty' r' k. absurd (refute (unfold value in k)))
        (omega (arith, length-filter_le (is_new []) (keys t)))
    where
      refute : ◌≡◌ {A = Option Bool} none (some true) → ⊥
      refute h = cc
