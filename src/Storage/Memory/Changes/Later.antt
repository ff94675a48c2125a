-- ===== src/Storage/Memory/Changes/Later.antt =====
-- The changes that `ReadChanges` collects, oldest first, and those later than a ULID.

use kengen.Base.{
  ℕ, zero, suc, ◌≤◌, ◌<◌, ◌≡◌, refl, sym, ap, ◌∙◌, subst, true, false, not, Option, none, some,
  List, [], ◌∷◌, take, drop, filter, leb, arith, All, All-filter, Bool-cases, if◌then◌else◌, inl,
  inr,
}
use kengen.Storage.Record.{TupleChangeRec}
use kengen.Storage.Memory.Changes.{
  ReadChangesFilter, passed, of_type, too_new, changes_loop, last_ulid,
}

module _ {C : Type 0} where
  -- Later changes have greater ULIDs.
  abbrev pub Ascending : List (TupleChangeRec C) → Type 0
  Ascending [] = Unit {0}
  Ascending (c ∷ cs) = All (λ d. c.ulid < d.ulid) cs × Ascending cs

  -- The changes of the type of the filter, up to the first one after the horizon.
  abbrev pub visible : ReadChangesFilter → ℕ → List (TupleChangeRec C) → List (TupleChangeRec C)
  visible f now [] = []
  visible f now (c ∷ cs) =
      let rest = visible f now cs in
      if of_type f c then (if too_new f now c then [] else c ∷ rest) else rest

  abbrev pub later_than : Option ℕ → List (TupleChangeRec C) → List (TupleChangeRec C)
  later_than none cs = cs
  later_than (some u) cs = filter (λ c. not (leb c.ulid u)) cs

  pub changes_loop_lem :
      (f : ReadChangesFilter) (now : ℕ) (from : Option ℕ) (cs : List (TupleChangeRec C))
      → changes_loop f now false from cs ≡ later_than from (visible f now cs)
  unfolding changes_loop passed
  changes_loop_lem f now none [] = refl
  changes_loop_lem f now (some u) [] = refl
  changes_loop_lem f now none (c ∷ cs) = rw (changes_loop, changes_loop_lem f now none cs) refl
  changes_loop_lem f now (some u) (c ∷ cs) =
      let rest = changes_loop_lem f now (some u) cs in ground arith

  All-visible :
      (P : TupleChangeRec C → Type 0) (f : ReadChangesFilter) (now : ℕ)
      (cs : List (TupleChangeRec C))
      → All P cs
      → All P (visible f now cs)
  All-visible P f now [] a = tt
  All-visible P f now (c ∷ cs) a = elim (Bool-cases (of_type f c)) [
    | inr e ↦ rw e (All-visible P f now cs a.1)
    | inl e ↦ elim (Bool-cases (too_new f now c)) [
      | inl k ↦ rw (e, k) tt
      | inr k ↦ rw (e, k) (a.0, All-visible P f now cs a.1)
    ]
  ]

  pub Ascending-visible :
      (f : ReadChangesFilter) (now : ℕ) (cs : List (TupleChangeRec C))
      → Ascending cs
      → Ascending (visible f now cs)
  Ascending-visible f now [] a = tt
  Ascending-visible f now (c ∷ cs) a = elim (Bool-cases (of_type f c)) [
    | inr e ↦ rw e (Ascending-visible f now cs a.1)
    | inl e ↦ elim (Bool-cases (too_new f now c)) [
      | inl k ↦ rw (e, k) tt
      | inr k ↦
          rw (e, k)
            (All-visible (λ d. c.ulid < d.ulid) f now cs a.0, Ascending-visible f now cs a.1)
    ]
  ]

  later_than-All :
      (u : ℕ) (cs : List (TupleChangeRec C))
      → All (λ d. u < d.ulid) cs
      → later_than (some u) cs ≡ cs
  later_than-All u [] a = refl
  later_than-All u (c ∷ cs) a = let rest = later_than-All u cs a.1 in let big = a.0 in ground arith

  -- The changes later than two ULIDs, the second at least the first, are those later than the second.
  later_than-later_than :
      (u w : ℕ) (cs : List (TupleChangeRec C))
      → u ≤ w
      → later_than (some w) (later_than (some u) cs) ≡ later_than (some w) cs
  later_than-later_than u w [] h = refl
  later_than-later_than u w (c ∷ cs) h = let rest = later_than-later_than u w cs h in ground arith

  later_than-above :
      (u : ℕ) (cs : List (TupleChangeRec C)) → All (λ d. u < d.ulid) (later_than (some u) cs)
  later_than-above u [] = tt
  later_than-above u (c ∷ cs) = elim (Bool-cases (leb c.ulid u)) [
    | inl e ↦ rw e (later_than-above u cs)
    | inr e ↦ rw e (ground (arith, e), later_than-above u cs)
  ]

  pub Ascending-later_than :
      (from : Option ℕ) (cs : List (TupleChangeRec C))
      → Ascending cs
      → Ascending (later_than from cs)
  Ascending-later_than none cs a = a
  Ascending-later_than (some u) [] a = tt
  Ascending-later_than (some u) (c ∷ cs) a = elim (Bool-cases (leb c.ulid u)) [
    | inl e ↦ rw e (Ascending-later_than (some u) cs a.1)
    | inr e ↦ rw e (
      All-filter (λ d. c.ulid < d.ulid) (λ d. not (leb d.ulid u)) cs a.0,
      Ascending-later_than (some u) cs a.1,
    )
  ]

  -- The changes later than one that is left are found among those that are left.
  pub later_than-left :
      (from : Option ℕ) (all_seen : List (TupleChangeRec C)) (c : TupleChangeRec C)
      (cs : List (TupleChangeRec C)) (w : ℕ)
      → later_than from all_seen ≡ c ∷ cs
      → c.ulid ≤ w
      → later_than (some w) all_seen ≡ later_than (some w) (c ∷ cs)
  later_than-left none all_seen c cs w k h = ap (later_than (some w)) k
  later_than-left (some u) all_seen c cs w k h =
      let above : All (λ d. u < d.ulid) (c ∷ cs) =
        subst (All (λ d. u < d.ulid)) k (later_than-above u all_seen) in
      sym (later_than-later_than u w all_seen (omega (arith, above.0, h)))
      ∙ ap (later_than (some w)) k

  pub last_ulid-bound :
      (u n : ℕ) (cs : List (TupleChangeRec C))
      → All (λ d. u < d.ulid) cs
      → Ascending cs
      → u ≤ last_ulid u (take n cs)
  unfolding last_ulid
  last_ulid-bound u zero cs a as' = omega arith
  last_ulid-bound u (suc n) [] a as' = omega arith
  last_ulid-bound u (suc n) (c ∷ cs) a as' =
      omega (arith, last_ulid-bound c.ulid n cs as'.0 as'.1, a.0)

  -- The changes later than the last of a page are those behind the page.
  pub later_than-last_ulid :
      (c : TupleChangeRec C) (n : ℕ) (cs : List (TupleChangeRec C))
      → Ascending (c ∷ cs)
      → later_than (some (last_ulid c.ulid (take n cs))) (c ∷ cs) ≡ drop n cs
  unfolding last_ulid
  later_than-last_ulid c zero cs a = let rest = later_than-All c.ulid cs a.0 in ground (arith, rest)
  later_than-last_ulid c (suc n) [] a = ground arith
  later_than-last_ulid c (suc n) (d ∷ ds) a =
      let rest = later_than-last_ulid d n ds a.1 in
      let bound = last_ulid-bound d.ulid n ds a.1.0 a.1.1 in
      let small : leb c.ulid (last_ulid d.ulid (take n ds)) ≡ true = ground (arith, bound, a.0.0) in
      rw small rest
