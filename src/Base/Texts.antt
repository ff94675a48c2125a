-- ===== src/Base/Texts.antt =====
-- Go strings as lists of code points. The source looks only for ASCII bytes and compares for
-- equality and order, which read the same on the code points as on their UTF-8 bytes.
use Prim.Native.Nat.{ℕ}
use Prim.Native.Char.{code}
use Prim.Native.String.{String}
use mathlib.Core.Path.{◌≡◌, refl}
use mathlib.Core.Logic.{◌↔◌}
use mathlib.Core.Bool.{Bool, true, false, ◌&&◌, ◌||◌}
use mathlib.Core.List.{List, [], ◌∷◌, ◌++◌, Memᴰ}
use mathlib.Core.Logic.{inl, inr}
use native.Mathlib.Omega.{arith}
use kengen.Base.Tests.{ltb, ◌==◌, Bool-cases}
use kengen.Base.Lists.{any}

abbrev pub Text : Type 0
Text = List ℕ

-- A text literal.
abbrev pub text : String → Text
text String.[] = []
text (String.◌∷◌ c s) = code c ∷ text s

-- `a == b` on strings

unfoldable pub text_eq : Text → Text → Bool
text_eq [] [] = true
text_eq [] (b ∷ y) = false
text_eq (a ∷ x) [] = false
text_eq (a ∷ x) (b ∷ y) = a == b && text_eq x y

pub text_eq_iff : (x y : Text) → (text_eq x y ≡ true) ↔ (x ≡ y)
unfolding text_eq
text_eq_iff [] [] = ground arith
text_eq_iff [] (b ∷ y) = ground arith
text_eq_iff (a ∷ x) [] = ground arith
text_eq_iff (a ∷ x) (b ∷ y) = ground (arith, text_eq_iff x y)

pub text_eq_refl : (x : Text) → text_eq x x ≡ true
text_eq_refl x = (text_eq_iff x x).1 refl

-- `a < b` on strings
unfoldable pub text_lt : Text → Text → Bool
text_lt [] [] = false
text_lt [] (b ∷ y) = true
text_lt (a ∷ x) [] = false
text_lt (a ∷ x) (b ∷ y) = ltb a b || (a == b && text_lt x y)

-- `strings.HasPrefix(s, p)`
unfoldable pub has_prefix : Text → Text → Bool
has_prefix s [] = true
has_prefix [] (b ∷ p) = false
has_prefix (a ∷ s) (b ∷ p) = a == b && has_prefix s p

pub text_lt_irrefl : (x : Text) → text_lt x x ≡ false
unfolding text_lt
text_lt_irrefl [] = refl
text_lt_irrefl (a ∷ x) = ground (arith, text_lt_irrefl x)

pub text_lt_asym : (x y : Text) → text_lt x y ≡ true → text_lt y x ≡ false
unfolding text_lt
text_lt_asym [] [] h = refl
text_lt_asym [] (b ∷ y) h = refl
text_lt_asym (a ∷ x) [] h = ground arith
text_lt_asym (a ∷ x) (b ∷ y) h = ground (arith, text_lt_asym x y)

pub text_lt_total : (x y : Text) → text_lt x y ≡ false → text_lt y x ≡ false → x ≡ y
unfolding text_lt
text_lt_total [] [] h k = refl
text_lt_total [] (b ∷ y) h k = ground arith
text_lt_total (a ∷ x) [] h k = ground arith
text_lt_total (a ∷ x) (b ∷ y) h k = ground (arith, text_lt_total x y)

pub text_lt_trans : (x y z : Text) → text_lt x y ≡ true → text_lt y z ≡ true → text_lt x z ≡ true
unfolding text_lt
text_lt_trans [] [] z h k = ground arith
text_lt_trans [] (b ∷ y) [] h k = ground arith
text_lt_trans [] (b ∷ y) (c ∷ z) h k = refl
text_lt_trans (a ∷ x) [] z h k = ground arith
text_lt_trans (a ∷ x) (b ∷ y) [] h k = ground arith
text_lt_trans (a ∷ x) (b ∷ y) (c ∷ z) h k = ground (arith, text_lt_trans x y z)

cons-injective : {a b : ℕ} {x y : Text} → a ∷ x ≡ b ∷ y → x ≡ y
cons-injective h = cc

pub append-injective : (s : Text) {x y : Text} → s ++ x ≡ s ++ y → x ≡ y
append-injective [] h = h
append-injective (a ∷ s) h = append-injective s (cons-injective h)

pub any-Memᴰ : (x : Text) (xs : List Text) → any (text_eq x) xs ≡ true → Memᴰ x xs
any-Memᴰ x [] h = ground arith
any-Memᴰ x (y ∷ xs) h = elim (Bool-cases (text_eq x y)) [
  | inl e ↦ Memᴰ.head ((text_eq_iff x y).0 e)
  | inr e ↦ Memᴰ.tail (any-Memᴰ x xs (rw e at h))
]
