-- ===== src/Typesystem/Entrypoints/StepsEnd.antt =====
-- pkg/typesystem/typesystem.go: the loops of `hasEntrypoints` over a rewrite with no operands end.
use kengen.Base.{
  ℕ, ◌≤◌, Text, ◌≡◌, inl, inr, Bool, true, false, not, ◌||◌, none, some, List, [], ◌∷◌, arith,
  Bool-cases, Option-cases,
}
use kengen.Typesystem.Model.{
  Userset, RelationReference, relation_of, has_wildcard, has_target, Relation, TypeSystem,
}
use kengen.Typesystem.Entrypoints.{
  Visited, value, EntryResult, entered, undefined_relation, too_few_children, unknown_rewrite,
  no_fuel, after, Jump, relation_in, this_loop, tupleset_loop, tupleset_entry, computed_entry,
}
use kengen.Typesystem.Entrypoints.Spec.{Kept, KeptAll, Good, GoodAll, Says, Answers, JumpAnswers}
use kengen.Typesystem.Entrypoints.Enough.{Ends, fresh_count, KeptAll-le, all_relations}

module _ {D : Type 0} (t : TypeSystem D) where
  after-Answers-Ends :
      (ty r : Text) (u : Userset) (v : Visited) (res : EntryResult)
      (found more : Bool → Visited → EntryResult)
      → Ends res
      → Answers t ty r u v res
      → ((loop : Bool) (v' : Visited) → KeptAll v v' → GoodAll t v' → Ends (found loop v'))
      → ((loop : Bool) (v' : Visited) → KeptAll v v' → GoodAll t v' → Ends (more loop v'))
      → Ends (after res found more)
  after-Answers-Ends ty r u v (entered true loop v') found more e (h, k, g) f m = f loop v' k g
  after-Answers-Ends ty r u v (entered false loop v') found more e (h, k, g) f m = m loop v' k g
  after-Answers-Ends ty r u v (undefined_relation ty' r') found more e a f m = tt
  after-Answers-Ends ty r u v too_few_children found more e a f m = tt
  after-Answers-Ends ty r u v unknown_rewrite found more e a f m = tt
  after-Answers-Ends ty r u v no_fuel found more e a f m = e

  pub after-Says-Ends :
      (ty r : Text) (u : Userset) (v : Visited) (res : EntryResult)
      (found more : Bool → Visited → EntryResult)
      → Ends res
      → Says t ty r u v res
      → ((loop : Bool) (v' : Visited) → Kept ty r v v' → Good t ty r v' → Ends (found loop v'))
      → ((loop : Bool) (v' : Visited) → Kept ty r v v' → Good t ty r v' → Ends (more loop v'))
      → Ends (after res found more)
  after-Says-Ends ty r u v (entered true loop v') found more e (h, k, g, o) f m = f loop v' k g
  after-Says-Ends ty r u v (entered false loop v') found more e (h, k, g, o) f m = m loop v' k g
  after-Says-Ends ty r u v (undefined_relation ty' r') found more e a f m = tt
  after-Says-Ends ty r u v too_few_children found more e a f m = tt
  after-Says-Ends ty r u v unknown_rewrite found more e a f m = tt
  after-Says-Ends ty r u v no_fuel found more e a f m = e

  abbrev pub keys : List (Text × Text)
  keys = all_relations t.relations

  -- A call for a relation that is not visited ends, where at most `m` relations are left.
  abbrev pub JumpEnds : ℕ → Jump → Type 0
  JumpEnds m jump =
      (v : Visited) (ty r : Text) (s : Relation)
      → relation_in t ty r ≡ some s
      → value v ty r ≡ none
      → GoodAll t v
      → fresh_count keys v ≤ m
      → Ends (jump v ty r s.rewrite)

module _ {D : Type 0} (t : TypeSystem D) (jump : Jump) (answers : JumpAnswers t jump) (m : ℕ)
    (jump_ends : JumpEnds t m jump) (ty r : Text) where
  abbrev pub Few : Visited → Type 0
  Few v = fresh_count (keys t) v ≤ m

  Few-KeptAll : (v v' : Visited) → KeptAll v v' → Few v → Few v'
  Few-KeptAll v v' k h = omega (arith, KeptAll-le (keys t) v v' k)

  pub this_loop-Ends :
      (v : Visited) (refs : List RelationReference)
      → GoodAll t v
      → Few v
      → Ends (this_loop t jump ty r v refs)
  unfolding this_loop
  this_loop-Ends v [] g h = tt
  this_loop-Ends v (ref ∷ refs) g h =
      let at = relation_of ref.target in
      let more : (b : Bool) (v' : Visited)
          → KeptAll v v'
          → GoodAll t v'
          → Ends (this_loop t jump ty r v' refs) =
        λ b v' k g'. this_loop-Ends v' refs g' (Few-KeptAll v v' k h) in
      elim (Bool-cases (not (has_target ref.target) || has_wildcard ref.target)) [
        | inl plain ↦ rw (this_loop, plain) tt
        | inr other ↦ elim (Option-cases (relation_in t ref.object_type at)) [
          | inl none_there ↦ rw (this_loop, other, none_there) tt
          | inr (s, there) ↦ elim (Option-cases (value v ref.object_type at)) [
            | inr (b, seen) ↦ rw (this_loop, other, there, seen) (more false v (λ ty' r' b h. h) g)
            | inl new ↦
                rw (this_loop, other, there, new)
                  (after-Answers-Ends t ref.object_type at s.rewrite v
                    (jump v ref.object_type at s.rewrite) (λ loop v'. entered true false v')
                    (λ loop v'. this_loop t jump ty r v' refs)
                    (jump_ends v ref.object_type at s there new g h)
                    (answers v ref.object_type at s there new g) (λ loop v' k g'. tt) more)
          ]
        ]
      ]

  tupleset_loop-Ends :
      (x : Text) (v : Visited) (refs : List RelationReference)
      → GoodAll t v
      → Few v
      → Ends (tupleset_loop t jump ty r x v refs)
  unfolding tupleset_loop
  tupleset_loop-Ends x v [] g h = tt
  tupleset_loop-Ends x v (ref ∷ refs) g h =
      let more : (b : Bool) (v' : Visited)
          → KeptAll v v'
          → GoodAll t v'
          → Ends (tupleset_loop t jump ty r x v' refs) =
        λ b v' k g'. tupleset_loop-Ends x v' refs g' (Few-KeptAll v v' k h) in
      elim (Option-cases (relation_in t ref.object_type x)) [
        | inl none_there ↦ rw (tupleset_loop, none_there) (more false v (λ ty' r' b h. h) g)
        | inr (s, there) ↦ elim (Option-cases (value v ref.object_type x)) [
          | inr (true, seen) ↦ rw (tupleset_loop, there, seen) tt
          | inr (false, seen) ↦ rw (tupleset_loop, there, seen) (more false v (λ ty' r' b h. h) g)
          | inl new ↦
              rw (tupleset_loop, there, new)
                (after-Answers-Ends t ref.object_type x s.rewrite v
                  (jump v ref.object_type x s.rewrite) (λ loop v'. entered true false v')
                  (λ loop v'. tupleset_loop t jump ty r x v' refs)
                  (jump_ends v ref.object_type x s there new g h)
                  (answers v ref.object_type x s there new g) (λ loop v' k g'. tt) more)
        ]
      ]

  pub tupleset_entry-Ends :
      (y x : Text) (v : Visited) → GoodAll t v → Few v → Ends (tupleset_entry t jump ty r y x v)
  unfolding tupleset_entry
  tupleset_entry-Ends y x v g h = elim (Option-cases (relation_in t ty y)) [
    | inl none_there ↦ rw (tupleset_entry, none_there) tt
    | inr (s, there) ↦ rw (tupleset_entry, there) (tupleset_loop-Ends x v s.directly_related g h)
  ]

  pub computed_entry-Ends :
      (c : Text) (v : Visited) → GoodAll t v → Few v → Ends (computed_entry t jump ty r c v)
  unfolding computed_entry
  computed_entry-Ends c v g h = elim (Option-cases (relation_in t ty c)) [
    | inl none_there ↦ rw (computed_entry, none_there) tt
    | inr (s, there) ↦ elim (Option-cases (value v ty c)) [
      | inr (b, seen) ↦ rw (computed_entry, there, seen) tt
      | inl new ↦ rw (computed_entry, there, new) (jump_ends v ty c s there new g h)
    ]
  ]
