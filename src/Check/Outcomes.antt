-- ===== src/Check/Outcomes.antt =====
-- internal/graph/check.go: what the outcome of a set operation says of the outcomes of its children.
use mathlib.Core.List.{Permᴰ}
use mathlib.Core.Option.{none-ne-some}
use kengen.Base.{
  ◌≤◌, ◌≡◌, ◌≢◌, refl, sym, ◌∙◌, subst, inl, inr, Bool, true, false, Option, none, some, List, [],
  ◌∷◌, map, length, any, all, Memᴰ, ltb, arith, Bool-cases,
}
use kengen.Typesystem.Model.{Userset}
use kengen.Check.Response.{CheckResponse, CheckError, responded, failed}
use kengen.Check.Reduce.{
  Selected, arrived, Reduced, answer, error, plain_response, set_cycle, union, intersection,
}
use kengen.Check.Verdict.{
  Verdict, granted, refused, broken, choose, verdict, is_failed, is_allowed, is_refusal, is_running,
  union-verdict, intersection-verdict,
}
use kengen.Check.Orders.{any-Perm, length-Perm, exclusion_orders}
use kengen.Check.Request.{CheckRequest, CheckFault, Outcome, Checker}
use kengen.Check.Dispatches.{consume_loop, consume_dispatches}
use kengen.Check.Resolve.{as_outcome, union_of, intersection_of, consumed}

-- Every outcome arrives once, in some order, and an exclusion receives its two outcomes and the ends of the channels.
abbrev pub Fair : {D P V : Type 0} → Checker D P V → Type 0
Fair {D} {P} {V} c =
    ((req : CheckRequest) (u : Userset) (os : List (Outcome V)) → Permᴰ os (c.arrival req u os))
    × ((req : CheckRequest) (b s : Outcome V) → Memᴰ (c.received req b s) (exclusion_orders b s))

any-map :
    {A B : Type 0} (p : B → Bool) (f : A → B) (xs : List A)
    → any p (map f xs) ≡ any (λ x. p (f x)) xs
any-map p f [] = refl
any-map p f (x ∷ xs) = ground (arith, any-map p f xs)

length-map : {A B : Type 0} (f : A → B) (xs : List A) → length (map f xs) ≡ length xs
length-map f [] = refl
length-map f (x ∷ xs) = omega (arith, length-map f xs)

module _ {V : Type 0} where
  -- The outcome is a response that allows.
  abbrev pub allows : Outcome V → Bool
  allows o = is_allowed (arrived o)

  running : (os : List (Outcome V)) → all is_running (map arrived os) ≡ true
  running [] = refl
  running (o ∷ os) = running os

  pub as_outcome-granted :
      (m : Option (Reduced (CheckFault V))) (o : Outcome V)
      → as_outcome m ≡ some o
      → allows o ≡ true
      → verdict m ≡ some granted
  as_outcome-granted none o h k = cc
  as_outcome-granted (some (error e)) o h k = ground arith
  as_outcome-granted (some (answer r)) o h k =
      let same : ◌≡◌ {A = Outcome V} (responded r) o = cc h in
      let good : r.allowed ≡ true = subst (λ z. allows z ≡ true) (sym same) k in rw good refl

  pub as_outcome-verdict :
      (m : Option (Reduced (CheckFault V))) (v : Verdict) → verdict m ≡ some v → as_outcome m ≢ none
  as_outcome-verdict none v h k = cc
  as_outcome-verdict (some (error e)) v h k = cc
  as_outcome-verdict (some (answer r)) v h k = cc

  all_allow :
      (os : List (Outcome V))
      → any (λ o. is_refusal (arrived o)) os ≡ false
      → any (λ o. is_failed (arrived o)) os ≡ false
      → all allows os ≡ true
  all_allow [] h k = refl
  all_allow (failed e ∷ os) h k = cc
  all_allow (responded r ∷ os) h k = ground (arith, all_allow os)

  consume_loop-one :
      (os : List (Outcome V)) (result : CheckResponse) (final : Option (CheckError (CheckFault V)))
      → result.allowed ≡ false
      → allows (consume_loop os result final) ≡ true
      → any allows os ≡ true
  unfolding consume_loop
  consume_loop-one [] result none h k = ground arith
  consume_loop-one [] result (some e) h k = cc
  consume_loop-one (failed e ∷ os) result final h k = consume_loop-one os result (some e) h k
  consume_loop-one (responded r ∷ os) result final h k =
      ground
        (arith, consume_loop-one os result final, consume_loop-one os (set_cycle true result) final)

module _ {D P V : Type 0} (c : Checker D P V) (fair : Fair c) (req : CheckRequest)
    (u : Userset) where
  abbrev events : List (Outcome V) → List (Selected (CheckFault V))
  events os = map arrived (c.arrival req u os)

  length-events : (os : List (Outcome V)) → length (events os) ≡ length os
  length-events os = length-map arrived (c.arrival req u os) ∙ sym (length-Perm (fair.0 req u os))

  any-events :
      (p : Selected (CheckFault V) → Bool) (os : List (Outcome V))
      → any p (events os) ≡ any (λ o. p (arrived o)) os
  any-events p os =
      any-map p arrived (c.arrival req u os) ∙ sym (any-Perm (λ o. p (arrived o)) (fair.0 req u os))

  union-events :
      (os : List (Outcome V))
      → verdict (union false (length os) (events os))
        ≡ some
            (choose (any is_allowed (events os)) (any is_failed (events os)) granted broken refused)
  union-events os =
      subst
        (λ n.
          verdict (union false n (events os))
          ≡ some (
              choose (any is_allowed (events os)) (any is_failed (events os)) granted broken
                refused))
        (length-events os) (union-verdict (events os) (running (c.arrival req u os)))

  pub union_of-one :
      (m : Option (List (Outcome V))) (o : Outcome V)
      → union_of c req u m ≡ some o
      → allows o ≡ true
      → (os : List (Outcome V)) × (m ≡ some os) × (any allows os ≡ true)
  unfolding union_of
  union_of-one none o h k = absurd (none-ne-some _ h)
  union_of-one (some os) o h k =
      let v = as_outcome-granted (union false (length os) (events os)) o h k in
      (os, refl, sym (any-events is_allowed os) ∙ chosen _ _ (sym (union-events os) ∙ v))
    where
      chosen : (a b : Bool) → some (choose a b granted broken refused) ≡ some granted → a ≡ true
      chosen a b h = ground arith

  pub union_of-some : (m : Option (List (Outcome V))) → m ≢ none → union_of c req u m ≢ none
  unfolding union_of
  union_of-some none h k = h refl
  union_of-some (some os) h k =
      as_outcome-verdict (union false (length os) (events os)) _ (union-events os) k

  intersection-events :
      (os : List (Outcome V))
      → 2 ≤ length os
      → verdict (intersection false (length os) (events os))
        ≡ some
            (choose (any is_refusal (events os)) (any is_failed (events os)) refused broken granted)
  intersection-events os two =
      subst
        (λ n.
          verdict (intersection false n (events os))
          ≡ some (
              choose (any is_refusal (events os)) (any is_failed (events os)) refused broken
                granted))
        (length-events os)
        (intersection-verdict (events os) (omega (arith, length-events os))
          (running (c.arrival req u os)))

  few_operands :
      (os : List (Outcome V))
      → ltb (length os) 2 ≡ true
      → verdict (intersection false (length os) (events os)) ≡ some broken
  unfolding intersection
  few_operands os h = rw (intersection, h) refl

  pub intersection_of-all :
      (m : Option (List (Outcome V))) (o : Outcome V)
      → intersection_of c req u m ≡ some o
      → allows o ≡ true
      → (os : List (Outcome V)) × (m ≡ some os) × (all allows os ≡ true)
  unfolding intersection_of
  intersection_of-all none o h k = absurd (none-ne-some _ h)
  intersection_of-all (some os) o h k =
      let v = as_outcome-granted (intersection false (length os) (events os)) o h k in
      elim (Bool-cases (ltb (length os) 2)) [
        | inl few ↦ absurd (clash (sym (few_operands os few) ∙ v))
        | inr enough ↦
            let (a, b) = chosen _ _ (sym (intersection-events os (ground (arith, enough))) ∙ v) in
            (
              os,
              refl,
              all_allow os (sym (any-events is_refusal os) ∙ a) (sym (any-events is_failed os) ∙ b),
            )
      ]
    where
      clash : some broken ≡ some granted → ⊥
      clash h = cc

      chosen :
          (a b : Bool)
          → some (choose a b refused broken granted) ≡ some granted
          → (a ≡ false) × (b ≡ false)
      chosen a b h = ground arith

  pub intersection_of-some :
      (m : Option (List (Outcome V))) → m ≢ none → intersection_of c req u m ≢ none
  unfolding intersection_of
  intersection_of-some none h k = h refl
  intersection_of-some (some os) h k = elim (Bool-cases (ltb (length os) 2)) [
    | inl few ↦
        as_outcome-verdict (intersection false (length os) (events os)) _ (few_operands os few) k
    | inr enough ↦
        as_outcome-verdict (intersection false (length os) (events os)) _
          (intersection-events os (ground (arith, enough))) k
  ]

  pub consumed-one :
      (m : Option (List (Outcome V))) (o : Outcome V)
      → consumed c req u m ≡ some o
      → allows o ≡ true
      → (os : List (Outcome V)) × (m ≡ some os) × (any allows os ≡ true)
  unfolding consumed consume_dispatches
  consumed-one none o h k = absurd (none-ne-some _ h)
  consumed-one (some os) o h k =
      let same : consume_dispatches (c.arrival req u os) ≡ o = cc h in
      (
        os,
        refl,
        any-Perm allows (fair.0 req u os)
            ∙ consume_loop-one (c.arrival req u os) (plain_response false) none refl
                (subst (λ z. allows z ≡ true) (sym same) k),
      )

  pub consumed-some : (m : Option (List (Outcome V))) → m ≢ none → consumed c req u m ≢ none
  unfolding consumed
  consumed-some none h k = h refl
  consumed-some (some os) h k = cc
