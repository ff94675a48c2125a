-- ===== src/Storage/Iterators/Answer.antt =====
-- pkg/storage/tuple_iterators.go: the answer of the conditions iterator, from the items it has left.
use kengen.Base.{
  ◌≡◌, refl, ◌∙◌, ap, Bool, true, false, Option, none, some, List, [], ◌∷◌, filter, any, ◌||◌, ◌⊎◌,
  inl, inr, if◌then◌else◌,
}
use kengen.Storage.Iterators.Ops.{Next, item, done, fault, IteratorOps}
use kengen.Storage.Iterators.Conditions.{
  Tested, tested, test_error, ConditionsFiltered, conditions_end,
}

-- Without a tuple: done, or the error.
abbrev pub ending : {T E : Type 0} → Bool → Option E → Next T E
ending true last = done
ending false none = done
ending false (some e) = fault e

abbrev pub first_or : {T E : Type 0} → List T → Next T E → Next T E
first_or [] other = other
first_or (x ∷ xs) other = item x

module _ {T E : Type 0} (test : T → Tested E) where
  abbrev pub holds : T → Bool
  holds x = elim (test x) [ tested b ↦ b | test_error e ↦ false ]

  abbrev pub note : Tested E → Option E → Option E
  note (tested b) last = last
  note (test_error e) last = some e

  -- The last error of the conditions before the first that holds, if any, else the one before.
  abbrev pub last_failure : List T → Option E → Option E
  last_failure [] last = last
  last_failure (x ∷ xs) last =
      let more = last_failure xs (note (test x) last) in if holds x then last else more

  -- `lastError` behind that answer: an error that is returned is forgotten.
  abbrev pub error_left : List T → Bool → Option E → Option E
  error_left xs valid last = if any holds xs || valid then last_failure xs last else none

  -- The answer: the first tuple whose condition holds; without one the last error, unless a tuple was given before.
  abbrev pub conditions_answer : List T → Bool → Option E → Next T E
  conditions_answer xs valid last = first_or (filter holds xs) (ending valid (last_failure xs last))

module _ {T E : Type 0} (test : T → Tested E) (x : T) (xs : List T) (valid : Bool)
    (last : Option E) where
  pub filter-true : test x ≡ tested true → filter (holds test) (x ∷ xs) ≡ x ∷ filter (holds test) xs
  filter-true t = rw (holds, t) refl

  pub filter-false : test x ≡ tested false → filter (holds test) (x ∷ xs) ≡ filter (holds test) xs
  filter-false t = rw (holds, t) refl

  pub filter-error :
      (e : E) → test x ≡ test_error e → filter (holds test) (x ∷ xs) ≡ filter (holds test) xs
  filter-error e t = rw (holds, t) refl

  pub failure_false :
      test x ≡ tested false → last_failure test (x ∷ xs) last ≡ last_failure test xs last
  failure_false t = rw (holds, note, t) refl

  pub failure_error :
      (e : E)
      → test x ≡ test_error e
      → last_failure test (x ∷ xs) last ≡ last_failure test xs (some e)
  failure_error e t = rw (holds, note, t) refl

  pub answer_true : test x ≡ tested true → conditions_answer test (x ∷ xs) valid last ≡ item x
  answer_true t =
      ap (λ z. first_or z (ending valid (last_failure test (x ∷ xs) last))) (filter-true t)

  pub answer_false :
      test x ≡ tested false
      → conditions_answer test (x ∷ xs) valid last ≡ conditions_answer test xs valid last
  answer_false t =
      ap (λ z. first_or z (ending valid (last_failure test (x ∷ xs) last))) (filter-false t)
      ∙ ap (λ z. first_or (filter (holds test) xs) (ending valid z)) (failure_false t)

  pub answer_error :
      (e : E)
      → test x ≡ test_error e
      → conditions_answer test (x ∷ xs) valid last ≡ conditions_answer test xs valid (some e)
  answer_error e t =
      ap (λ z. first_or z (ending valid (last_failure test (x ∷ xs) last))) (filter-error e t)
      ∙ ap (λ z. first_or (filter (holds test) xs) (ending valid z)) (failure_error e t)

pub Tested-cases :
    {E : Type 0} (t : Tested E)
    → (t ≡ tested true) ⊎ (t ≡ tested false) ⊎ ((e : E) × (t ≡ test_error e))
Tested-cases (tested true) = inl refl
Tested-cases (tested false) = inr (inl refl)
Tested-cases (test_error e) = inr (inr (e, refl))

module _ {I T E : Type 0} (ops : IteratorOps I T E) (test : T → Tested E) where
  conditions_end_fields :
      (clear : Bool) (it : I) (last : Option E) (valid stopped : Bool)
      → (s' : ConditionsFiltered I E) × (conditions_end ops test clear
            (record { iter = it; last_error = last; once_valid = valid; stopped = stopped })
          ≡ (conditions_answer test [] valid last, s'))
        × (s'.iter ≡ it)
  unfolding conditions_end
  conditions_end_fields clear it last true stopped = (_, refl, refl)
  conditions_end_fields clear it none false stopped = (_, refl, refl)
  conditions_end_fields true it (some e) false stopped = (_, refl, refl)
  conditions_end_fields false it (some e) false stopped = (_, refl, refl)

  pub conditions_end_lem :
      (clear : Bool) (s : ConditionsFiltered I E)
      → (s' : ConditionsFiltered I E) × (conditions_end ops test clear s
          ≡ (conditions_answer test [] s.once_valid s.last_error, s'))
        × (s'.iter ≡ s.iter)
  conditions_end_lem clear s =
      conditions_end_fields clear s.iter s.last_error s.once_valid s.stopped
