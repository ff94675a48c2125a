-- ===== src/Storage/Iterators/Heads.antt =====
-- What `Head` of the conditions iterator gives.
use kengen.Base.{
  ℕ, zero, suc, ◌<◌, ◌≡◌, refl, sym, ◌∙◌, ap, true, false, none, some, List, ◌∷◌, length, filter,
  inl, inr, arith,
}
use kengen.Storage.Iterators.Ops.{item, IteratorOps}
use kengen.Storage.Iterators.Conditions.{
  Tested, ConditionsFiltered, conditions_end, conditions_head,
}
use kengen.Storage.Iterators.Streams.{Yields, Peeks, rest, List-cases}
use kengen.Storage.Iterators.Answer.{
  holds, conditions_answer, filter-false, filter-error, answer_true, answer_false, answer_error,
  Tested-cases, conditions_end_lem,
}

module _ {I T E : Type 0} (ops : IteratorOps I T E) (contents : I → List T)
    (test : T → Tested E) where
  -- If its iterator gives the items of a list, `Head` of the conditions iterator ends within a round more than these,
  -- gives what `Next` would, and leaves all the tuples whose condition holds.
  -- The context is not done.
  pub conditions_head-answer :
      Yields ops.next contents
      → Peeks ops.head contents
      → (n : ℕ) (s : ConditionsFiltered I E) → length (contents s.iter) < n
      → (s' : ConditionsFiltered I E) × (conditions_head ops test n none s
          ≡ some (conditions_answer test (contents s.iter) s.once_valid s.last_error, s'))
        × (filter (holds test) (contents s'.iter) ≡ filter (holds test) (contents s.iter))
  unfolding conditions_head conditions_end
  conditions_head-answer y p zero s h = absurd (omega (arith, h))
  conditions_head-answer y p (suc n) s h =
      let s0 : I = (ops.head none s.iter).1 in
      let s1 : ConditionsFiltered I E = record s { iter = s0 } in
      elim (List-cases (contents s.iter)) [
        | inl e ↦
            let k : filter (holds test) (contents s0) ≡ filter (holds test) (contents s.iter) =
              ap (filter (holds test)) (p s.iter).1 in
            let (s', i, j) = conditions_end_lem ops test false s1 in
            (
              s',
              rw (conditions_head, (p s.iter).0, e) (ap some i),
              ap (λ z. filter (holds test) (contents z)) j ∙ k,
            )
        | inr (x, xs, e) ↦
            let k1 : contents s0 ≡ x ∷ xs = (p s.iter).1 ∙ e in
            let k : contents (ops.next none s0).1 ≡ xs = (y s0).1 ∙ ap rest k1 in
            let less : length (contents (ops.next none s0).1) < n =
              omega (arith, h, ap length k, ap length e) in
            elim (Tested-cases (test x)) [
              | inl t ↦
                  let s' : ConditionsFiltered I E = record s1 { once_valid = true } in
                  let step : conditions_head ops test (suc n) none s ≡ some (item x, s') =
                    rw (conditions_head, (p s.iter).0, e, t) refl in
                  (
                    s',
                    step
                        ∙ ap (λ z. some (z, s'))
                            (sym (answer_true test x xs s.once_valid s.last_error t)
                              ∙ ap (λ z. conditions_answer test z s.once_valid s.last_error)
                                  (sym e)),
                    ap (filter (holds test)) (p s.iter).1,
                  )
              | inr (inl t) ↦
                  let s2 : ConditionsFiltered I E = record s { iter = (ops.next none s0).1 } in
                  let (s', i, j) = conditions_head-answer y p n s2 less in
                  let step : conditions_head ops test (suc n) none s
                      ≡ conditions_head ops test n none s2 =
                    rw (conditions_head, (p s.iter).0, e, t, (y s0).0, k1) refl in
                  (
                    s',
                    step
                        ∙ i
                        ∙ ap (λ z. some (conditions_answer test z s.once_valid s.last_error, s')) k
                        ∙ ap (λ z. some (z, s'))
                            (sym (answer_false test x xs s.once_valid s.last_error t)
                              ∙ ap (λ z. conditions_answer test z s.once_valid s.last_error)
                                  (sym e)),
                    rw (e, filter-false test x xs s.once_valid s.last_error t)
                        (j ∙ ap (filter (holds test)) k),
                  )
              | inr (inr (f, t)) ↦
                  let s2 : ConditionsFiltered I E = record s {
                    iter = (ops.next none s0).1;
                    last_error = some f;
                  } in
                  let (s', i, j) = conditions_head-answer y p n s2 less in
                  let step : conditions_head ops test (suc n) none s
                      ≡ conditions_head ops test n none s2 =
                    rw (conditions_head, (p s.iter).0, e, t, (y s0).0, k1) refl in
                  (
                    s',
                    step
                        ∙ i
                        ∙ ap (λ z. some (conditions_answer test z s.once_valid (some f), s')) k
                        ∙ ap (λ z. some (z, s'))
                            (sym (answer_error test x xs s.once_valid s.last_error f t)
                              ∙ ap (λ z. conditions_answer test z s.once_valid s.last_error)
                                  (sym e)),
                    rw (e, filter-error test x xs s.once_valid s.last_error f t)
                        (j ∙ ap (filter (holds test)) k),
                  )
            ]
      ]
