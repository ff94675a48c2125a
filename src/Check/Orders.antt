-- ===== src/Check/Orders.antt =====
-- The answers of the reducers do not depend on the order in which the outcomes arrive.
use mathlib.Core.List.{Permᴰ}
use kengen.Base.{
  ◌≤◌, ◌≡◌, refl, sym, ◌∙◌, ap, suc, Bool, true, false, ◌||◌, some, List, [], ◌∷◌, map, length, any,
  all, arith, All,
}
use kengen.Check.Response.{
  CheckOutcome, responded, failed, get_cycle_detected, get_metadata, get_allowed,
}
use kengen.Check.Reduce.{Selected, arrived, union, intersection}
use kengen.Check.Exclude.{
  Received, base_arrived, sub_arrived, base_closed, sub_closed, exclusion, exclusion_loop,
  exclusion_end, refusal,
}
use kengen.Check.Verdict.{
  granted, refused, broken, choose, verdict, is_failed, is_allowed, is_refusal, is_running,
  union-verdict, intersection-verdict,
}

module _ {A : Type 0} where
  pub any-Perm : (p : A → Bool) {xs ys : List A} → Permᴰ xs ys → any p xs ≡ any p ys
  any-Perm p Permᴰ.nil = refl
  any-Perm p (Permᴰ.cons e m) = rw (e, any-Perm p m) refl
  any-Perm p (Permᴰ.swap e f) = rw (e, f) ground arith
  any-Perm p (Permᴰ.trans m n) = any-Perm p m ∙ any-Perm p n

  all-Perm : (p : A → Bool) {xs ys : List A} → Permᴰ xs ys → all p xs ≡ all p ys
  all-Perm p Permᴰ.nil = refl
  all-Perm p (Permᴰ.cons e m) = rw (e, all-Perm p m) refl
  all-Perm p (Permᴰ.swap e f) = rw (e, f) ground arith
  all-Perm p (Permᴰ.trans m n) = all-Perm p m ∙ all-Perm p n

  pub length-Perm : {xs ys : List A} → Permᴰ xs ys → length xs ≡ length ys
  length-Perm Permᴰ.nil = refl
  length-Perm (Permᴰ.cons e m) = ap suc (length-Perm m)
  length-Perm (Permᴰ.swap e f) = refl
  length-Perm (Permᴰ.trans m n) = length-Perm m ∙ length-Perm n

module _ {E : Type 0} where
  abbrev pub outcomes : List (CheckOutcome E) → List (Selected E)
  outcomes = map arrived

  abbrev pub base_refuses : CheckOutcome E → Bool
  base_refuses o = is_refusal (arrived o)

  -- An outcome that cuts the base off: allowed, or found on a cycle.
  abbrev pub sub_cuts : CheckOutcome E → Bool
  sub_cuts (responded r) = r.metadata.cycle_detected || r.allowed
  sub_cuts (failed e) = false

  -- In whatever order the outcomes of a `union` arrive, it gives the same answer: allowed, not allowed or an error.
  pub union-Perm :
      {es es' : List (Selected E)}
      → Permᴰ es es'
      → all is_running es ≡ true
      → verdict (union false (length es) es) ≡ verdict (union false (length es') es')
  union-Perm {es} {es'} m h =
      union-verdict es h
      ∙ rw (any-Perm is_allowed m, any-Perm is_failed m)
          (sym (union-verdict es' (sym (all-Perm is_running m) ∙ h)))

  -- In whatever order the outcomes of an `intersection` of two handlers or more arrive, it gives the same answer.
  pub intersection-Perm :
      {es es' : List (Selected E)}
      → Permᴰ es es'
      → 2 ≤ length es
      → all is_running es ≡ true
      → verdict (intersection false (length es) es) ≡ verdict (intersection false (length es') es')
  intersection-Perm {es} {es'} m n h =
      intersection-verdict es n h
      ∙ rw (any-Perm is_refusal m, any-Perm is_failed m)
          (sym (
            intersection-verdict es' (omega (arith, length-Perm m))
              (sym (all-Perm is_running m) ∙ h)))

  -- The receives of an `exclusion` whose context does not end: each outcome comes before the end of its channel.
  abbrev pub exclusion_orders : CheckOutcome E → CheckOutcome E → List (List (Received E))
  exclusion_orders b s =
      (base_arrived b ∷ base_closed ∷ sub_arrived s ∷ sub_closed ∷ [])
      ∷ (base_arrived b ∷ sub_arrived s ∷ base_closed ∷ sub_closed ∷ [])
      ∷ (base_arrived b ∷ sub_arrived s ∷ sub_closed ∷ base_closed ∷ [])
      ∷ (sub_arrived s ∷ base_arrived b ∷ base_closed ∷ sub_closed ∷ [])
      ∷ (sub_arrived s ∷ base_arrived b ∷ sub_closed ∷ base_closed ∷ [])
      ∷ (sub_arrived s ∷ sub_closed ∷ base_arrived b ∷ base_closed ∷ [])
      ∷ []

  -- In each of the six orders in which an `exclusion` of two handlers, whose context does not end, can receive the
  -- outcomes and the ends of its two channels, it gives the same answer: not allowed if the base is not allowed or
  -- found on a cycle, or the subtracted one is allowed or found on a cycle; else an error if one of them is an
  -- error; else allowed.
  pub exclusion-verdict :
      (b s : CheckOutcome E)
      → All
          (λ es.
            verdict (exclusion false 2 es)
            ≡ some (
                choose
                  (base_refuses b || sub_cuts s)
                  (is_failed (arrived b) || is_failed (arrived s))
                  refused
                  broken
                  granted))
          (exclusion_orders b s)
  unfolding exclusion exclusion_loop exclusion_end refusal get_cycle_detected get_metadata
      get_allowed
  exclusion-verdict (failed e) (failed f) = (refl, (refl, (refl, (refl, (refl, (refl, tt))))))
  exclusion-verdict (failed e) (responded r) = (
    ground arith,
    (ground arith, (ground arith, (ground arith, (ground arith, (ground arith, tt))))),
  )
  exclusion-verdict (responded r) (failed e) = (
    ground arith,
    (ground arith, (ground arith, (ground arith, (ground arith, (ground arith, tt))))),
  )
  exclusion-verdict (responded r) (responded r') = (
    ground arith,
    (ground arith, (ground arith, (ground arith, (ground arith, (ground arith, tt))))),
  )
