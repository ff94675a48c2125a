-- ===== src/Tuple/Lacks.antt =====
-- Which bytes the accepted strings of pkg/tuple/tuple.go do not hold.
use kengen.Base.{ℕ, Text, ◌≡◌, refl, true, [], ◌∷◌, ◌++◌, arith, all}
use kengen.Tuple.Valid.{is_valid_object}
use kengen.Tuple.Slices.{lacks}
use kengen.Tuple.Grammar.{plain, plain_no_star, plain_no_at, ObjectForm-sound}

pub lacks_of_plain : (s : Text) → all plain s ≡ true → (lacks b':' s ≡ true) × (lacks b'#' s ≡ true)
lacks_of_plain [] h = (refl, refl)
lacks_of_plain (c ∷ s) h = ground (arith, lacks_of_plain s)

pub lacks_of_plain_no_star :
    (s : Text) → all plain_no_star s ≡ true → (lacks b':' s ≡ true) × (lacks b'#' s ≡ true)
lacks_of_plain_no_star [] h = (refl, refl)
lacks_of_plain_no_star (c ∷ s) h = ground (arith, lacks_of_plain_no_star s)

pub lacks_at : (s : Text) → all plain_no_at s ≡ true → lacks b'@' s ≡ true
lacks_at [] h = refl
lacks_at (c ∷ s) h = ground (arith, lacks_at s)

pub lacks-append :
    (c : ℕ) (s t : Text) → lacks c s ≡ true → lacks c t ≡ true → lacks c (s ++ t) ≡ true
lacks-append c [] t hs ht = ht
lacks-append c (x ∷ s) t hs ht = ground (arith, lacks-append c s t)

pub object_lacks_hash : (s : Text) → is_valid_object s ≡ true → lacks b'#' s ≡ true
object_lacks_hash s h =
    let f = ObjectForm-sound s h in
    rw f.split (
      lacks-append b'#' f.t (b':' ∷ f.id) ((lacks_of_plain f.t f.t_plain).1)
        (ground (arith, lacks_of_plain f.id)))
