-- ===== src/Base/Selection.antt =====
-- The part of a list that has a property, without a test that decides it.
use mathlib.Core.Path.{◌≡◌}
use mathlib.Core.Bool.{Bool, true, false}
use mathlib.Core.Logic.{◌↔◌, inl, inr}
use mathlib.Core.List.{List, [], ◌∷◌}
use native.Mathlib.Omega.{arith}
use kengen.Base.Tests.{Bool-cases}
use kengen.Base.Lists.{filter}

-- The second list has the elements of the first with the property, in order, each as often as it stands there.
pub data Selected {A : Type 0} (P : A → Type 0) : List A → List A → Type 0 where
  finished : Selected P [] []
  taken : (x : A) {xs ys : List A} → P x → Selected P xs ys → Selected P (x ∷ xs) (x ∷ ys)
  passed : (x : A) {xs ys : List A} → ¬ P x → Selected P xs ys → Selected P (x ∷ xs) ys

module _ {A : Type 0} (P : A → Type 0) where
  pub filter-Selected :
      (p : A → Bool) → ((x : A) → (p x ≡ true) ↔ P x) → (xs : List A) → Selected P xs (filter p xs)
  filter-Selected p h [] = finished
  filter-Selected p h (x ∷ xs) = elim (Bool-cases (p x)) [
    | inl e ↦ rw e (taken x ((h x).0 e) (filter-Selected p h xs))
    | inr e ↦ rw e (passed x (λ k. refute (p x) e ((h x).1 k)) (filter-Selected p h xs))
  ]
    where
      refute : (b : Bool) → b ≡ false → b ≡ true → ⊥
      refute b e k = ground arith

  pub Selected_all : ((x : A) → P x) → (xs : List A) → Selected P xs xs
  Selected_all h [] = finished
  Selected_all h (x ∷ xs) = taken x (h x) (Selected_all h xs)
