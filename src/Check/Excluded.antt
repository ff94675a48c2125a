-- ===== src/Check/Excluded.antt =====
-- internal/graph/check.go: what the outcome of an exclusion says of the outcomes of its two handlers.
use mathlib.Core.Option.{none-ne-some}
use kengen.Base.{◌≡◌, ◌≢◌, refl, sym, ◌∙◌, true, false, ◌||◌, Option, none, some, All-mem, arith}
use kengen.Check.Response.{responded, failed}
use kengen.Check.Reduce.{arrived}
use kengen.Check.Exclude.{exclusion}
use kengen.Check.Verdict.{granted, refused, broken, choose, verdict, is_failed}
use kengen.Check.Orders.{base_refuses, sub_cuts, exclusion_orders, exclusion-verdict}
use kengen.Check.Request.{CheckRequest, Outcome, Checker}
use kengen.Check.Resolve.{exclusion_of}
use kengen.Check.Outcomes.{Fair, allows, as_outcome-granted, as_outcome-verdict}

module _ {D P V : Type 0} (c : Checker D P V) (fair : Fair c) (req : CheckRequest) where
  exclusion-events :
      (b s : Outcome V)
      → verdict (exclusion false 2 (c.received req b s))
        ≡ some (
            choose
              (base_refuses b || sub_cuts s)
              (is_failed (arrived b) || is_failed (arrived s))
              refused
              broken
              granted)
  exclusion-events b s =
      All-mem
        (λ es.
          verdict (exclusion false 2 es)
          ≡ some (
              choose (base_refuses b || sub_cuts s) (is_failed (arrived b) || is_failed (arrived s))
                refused broken granted))
        (exclusion_orders b s) (exclusion-verdict b s) (fair.1 req b s)

  -- An exclusion that allows has a base that allows, and a subtracted outcome that is a response, does not allow
  -- and was not found on a cycle.
  pub exclusion_of-base :
      (m n : Option (Outcome V)) (o : Outcome V)
      → exclusion_of c req m n ≡ some o
      → allows o ≡ true
      → (b s : Outcome V) × (m ≡ some b)
        × (n ≡ some s)
        × (allows b ≡ true)
        × (sub_cuts s ≡ false)
        × (is_failed (arrived s) ≡ false)
  unfolding exclusion_of
  exclusion_of-base none n o h k = absurd (none-ne-some _ h)
  exclusion_of-base (some b) none o h k = absurd (none-ne-some _ h)
  exclusion_of-base (some b) (some s) o h k =
      let v = as_outcome-granted (exclusion false 2 (c.received req b s)) o h k in
      let (x, y, z) = parts b s (sym (exclusion-events b s) ∙ v) in (b, s, refl, refl, x, y, z)
    where
      parts :
          (b s : Outcome V)
          → some (
              choose
                (base_refuses b || sub_cuts s)
                (is_failed (arrived b) || is_failed (arrived s))
                refused
                broken
                granted)
            ≡ some granted
          → (allows b ≡ true) × (sub_cuts s ≡ false) × (is_failed (arrived s) ≡ false)
      parts (failed e) s h = ground arith
      parts (responded r) (failed e) h = ground arith
      parts (responded r) (responded q) h = ground arith

  pub exclusion_of-some :
      (m n : Option (Outcome V)) → m ≢ none → n ≢ none → exclusion_of c req m n ≢ none
  unfolding exclusion_of
  exclusion_of-some none n h k j = h refl
  exclusion_of-some (some b) none h k j = k refl
  exclusion_of-some (some b) (some s) h k j =
      as_outcome-verdict (exclusion false 2 (c.received req b s)) _ (exclusion-events b s) j
