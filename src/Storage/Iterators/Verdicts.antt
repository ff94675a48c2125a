-- ===== src/Storage/Iterators/Verdicts.antt =====
-- What `Next` of the conditions iterator gives: the tuples whose condition holds, and an error only where there is
-- none.
use kengen.Base.{
  ℕ, zero, suc, ◌<◌, ◌≡◌, refl, sym, subst, ◌∙◌, ap, Bool, true, false, ◌||◌, Option, none, some,
  List, [], ◌∷◌, length, filter, any, if◌then◌else◌, inl, inr, arith,
}
use kengen.Storage.Iterators.Ops.{Next, IteratorOps}
use kengen.Storage.Iterators.Conditions.{
  Tested, ConditionsFiltered, conditions_end, conditions_next,
}
use kengen.Storage.Iterators.Streams.{Yields, rest}
use kengen.Storage.Iterators.Answer.{
  holds, conditions_answer, error_left, note, first_or, ending, last_failure, filter-true,
  Tested-cases,
}

module _ {I T E : Type 0} (ops : IteratorOps I T E) (contents : I → List T)
    (test : T → Tested E) where
  -- What `Next` gives and leaves in a state whose iterator has the items `xs`.
  abbrev pub Answered :
      List T → ConditionsFiltered I E → Option (Next T E × ConditionsFiltered I E) → Type 0
  Answered xs s r =
      (s' : ConditionsFiltered I E) × (r
        ≡ some (conditions_answer test xs s.once_valid s.last_error, s'))
      × (filter (holds test) (contents s'.iter) ≡ rest (filter (holds test) xs))
      × (s'.once_valid ≡ (s.once_valid || any (holds test) xs))
      × (s'.last_error ≡ error_left test xs s.once_valid s.last_error)
      × (s'.stopped ≡ s.stopped)

  ended :
      (it : I) (last : Option E) (valid stopped : Bool)
      → contents it ≡ []
      → let s : ConditionsFiltered I E = record {
        iter = it;
        last_error = last;
        once_valid = valid;
        stopped = stopped;
      } in
        Answered [] s (some (conditions_end ops test true s))
  unfolding conditions_end
  ended it last true stopped e = (_, refl, ap (filter (holds test)) e, refl, refl, refl)
  ended it none false stopped e = (_, refl, ap (filter (holds test)) e, refl, refl, refl)
  ended it (some f) false stopped e = (_, refl, ap (filter (holds test)) e, refl, refl, refl)

  -- A tuple whose condition does not hold makes no difference but for the error that is noted.
  skipped :
      (x : T) (xs : List T) (last : Option E) (s : ConditionsFiltered I E)
      (r : Option (Next T E × ConditionsFiltered I E))
      → holds test x ≡ false
      → note test (test x) last ≡ s.last_error
      → Answered xs s r
      → Answered (x ∷ xs) (record s { last_error = last }) r
  skipped x xs last s r bad noted (s', a, b, c, d, st) =
      let same : filter (holds test) (x ∷ xs) ≡ filter (holds test) xs = rw bad refl in
      let failed : last_failure test (x ∷ xs) last ≡ last_failure test xs s.last_error =
        rw (bad, noted) refl in
      (
        s',
        a
            ∙ sym (
                ap (λ z. some (z, s'))
                  (ap (λ z. first_or z (ending s.once_valid (last_failure test (x ∷ xs) last))) same
                    ∙ ap (λ z. first_or (filter (holds test) xs) (ending s.once_valid z)) failed)),
        b ∙ sym (ap rest same),
        c ∙ rw bad refl,
        d
            ∙ sym (
                ap (λ z. if any (holds test) (x ∷ xs) || s.once_valid then z else none) failed
                ∙ rw bad refl),
        st,
      )

  next_on :
      Yields ops.next contents
      → (n : ℕ) (xs : List T) (s : ConditionsFiltered I E) → contents s.iter ≡ xs
      → length xs < n
      → Answered xs s (conditions_next ops test n none s)
  unfolding conditions_next conditions_end
  next_on y zero xs s e h = absurd (omega (arith, h))
  next_on y (suc n) [] s e h =
      let it = (ops.next none s.iter).1 in
      rw (conditions_next, (y s.iter).0, e)
        (ended it s.last_error s.once_valid s.stopped ((y s.iter).1 ∙ ap rest e))
  next_on y (suc n) (x ∷ xs) s e h =
      let s1 : ConditionsFiltered I E = record s { iter = (ops.next none s.iter).1 } in
      let k : contents s1.iter ≡ xs = (y s.iter).1 ∙ ap rest e in
      elim (Tested-cases (test x)) [
        | inl t ↦
            let good : holds test x ≡ true = rw (holds, t) refl in
            rw (conditions_next, (y s.iter).0, e, t)
              (
                record s1 { once_valid = true },
                rw (filter-true test x xs s.once_valid s.last_error t) refl,
                rw (filter-true test x xs s.once_valid s.last_error t) (ap (filter (holds test)) k),
                ground (arith, good),
                ground (arith, good),
                refl,
              )
        | inr (inl t) ↦
            let bad : holds test x ≡ false = rw (holds, t) refl in
            let step : conditions_next ops test (suc n) none s
                ≡ conditions_next ops test n none s1 =
              rw (conditions_next, (y s.iter).0, e, t) refl in
            subst (Answered (x ∷ xs) s) (sym step) (
              skipped x xs s.last_error s1 (conditions_next ops test n none s1) bad
                (rw (note, t) refl) (next_on y n xs s1 k (omega (arith, h))))
        | inr (inr (f, t)) ↦
            let s2 : ConditionsFiltered I E = record s1 { last_error = some f } in
            let bad : holds test x ≡ false = rw (holds, t) refl in
            let step : conditions_next ops test (suc n) none s
                ≡ conditions_next ops test n none s2 =
              rw (conditions_next, (y s.iter).0, e, t) refl in
            subst (Answered (x ∷ xs) s) (sym step) (
              skipped x xs s.last_error s2 (conditions_next ops test n none s2) bad
                (rw (note, t) refl) (next_on y n xs s2 k (omega (arith, h))))
      ]

  -- If its iterator gives the items of a list, `Next` of the conditions iterator ends within a round more than these.
  -- It gives the first tuple whose condition holds and leaves those that hold behind it. If there is none it gives
  -- `ErrIteratorDone` where a tuple was given before or no condition failed with an error, else the last error. It notes
  -- that a tuple was given where it gives one or one was given before, and the last error unless it returns it.
  -- The context is not done.
  pub conditions_next-answer :
      Yields ops.next contents
      → (n : ℕ) (s : ConditionsFiltered I E) → length (contents s.iter) < n
      → Answered (contents s.iter) s (conditions_next ops test n none s)
  conditions_next-answer y n s h = next_on y n (contents s.iter) s refl h
