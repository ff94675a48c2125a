-- ===== src/Base/Counts.antt =====
-- The count of the elements of a list that pass a test.
use Prim.Native.Nat.{◌≤◌, ◌<◌}
use mathlib.Core.Path.{◌≡◌, subst}
use mathlib.Core.Bool.{Bool, true, false}
use mathlib.Core.List.{List, [], ◌∷◌, Memᴰ}
use mathlib.Core.List.Memᴰ
use native.Mathlib.Omega.{arith}
use kengen.Base.Lists.{length, filter}

pub length-filter_le : {A : Type 0} (p : A → Bool) (xs : List A) → length (filter p xs) ≤ length xs
length-filter_le p [] = omega arith
length-filter_le p (x ∷ xs) = ground (arith, length-filter_le p xs)

-- A stronger test keeps no more, and fewer where it drops an element that is there.
pub length-filter_mono :
    {A : Type 0} (p q : A → Bool) (xs : List A)
    → ((x : A) → q x ≡ true → p x ≡ true)
    → length (filter q xs) ≤ length (filter p xs)
length-filter_mono p q [] h = omega arith
length-filter_mono p q (x ∷ xs) h = ground (arith, length-filter_mono p q xs h, h x)

pub length-filter_lt :
    {A : Type 0} (p q : A → Bool) (xs : List A) {x : A}
    → ((y : A) → q y ≡ true → p y ≡ true)
    → Memᴰ x xs
    → p x ≡ true
    → q x ≡ false
    → length (filter q xs) < length (filter p xs)
length-filter_lt p q [] h m a b = absurd (Memᴰ.not-nil m)
length-filter_lt p q (y ∷ xs) h (Memᴰ.head e) a b =
    let a' : p y ≡ true = subst (λ z. p z ≡ true) e a in
    let b' : q y ≡ false = subst (λ z. q z ≡ false) e b in
    rw (a', b') (ground (arith, length-filter_mono p q xs h))
length-filter_lt p q (y ∷ xs) h (Memᴰ.tail m) a b =
    ground (arith, length-filter_lt p q xs h m a b, h y)
