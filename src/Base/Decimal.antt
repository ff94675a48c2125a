-- ===== src/Base/Decimal.antt =====
-- The decimal strings of the Go library: `strconv.Itoa` on what is not negative, and
-- `strconv.Atoi` on an `int` of 64 bits.
use kengen.Base.{
  ℕ, zero, suc, ◌+◌, ◌-◌, ◌*◌, ◌/◌, ◌%◌, ◌<◌, ◌^◌, Text, ◌≡◌, refl, Bool, true, false, ◌&&◌, Option,
  none, some, [], ◌∷◌, arith, ltb, leb, ◌==◌, if◌then◌else◌, all, ap, ◌∙◌, ◌≢◌, text_eq,
  text_eq_iff, Bool-cases, inl, inr,
}

-- An `int`; `negsuc n` is -(n + 1).
pub data ℤ : Type 0 where
  pos negsuc : ℕ → ℤ

abbrev pub int_limit : ℕ
int_limit = 2 ^ 63

-- The fuel is one more than the number, which exceeds the count of its digits.
digits_onto : ℕ → ℕ → Text → Text
digits_onto zero n rest = rest
digits_onto (suc f) n rest =
    let more = digits_onto f (n / 10) ((b'0' + n % 10) ∷ rest) in
    if ltb n 10 then (b'0' + n) ∷ rest else more

unfoldable pub itoa : ℕ → Text
unfolding digits_onto
itoa n = digits_onto (suc n) n []

is_digit : ℕ → Bool
is_digit c = leb b'0' c && leb c b'9'

value : ℕ → Text → ℕ
value acc [] = acc
value acc (c ∷ s) = value (acc * 10 + (c - b'0')) s

unsigned : Text → Option ℕ
unfolding is_digit value
unsigned [] = none
unsigned (c ∷ s) = if all is_digit (c ∷ s) then some (value 0 (c ∷ s)) else none

positive : Option ℕ → Option ℤ
positive none = none
positive (some n) = if ltb n int_limit then some (pos n) else none

negative : Option ℕ → Option ℤ
negative none = none
negative (some zero) = some (pos 0)
negative (some (suc n)) = if leb (suc n) int_limit then some (negsuc n) else none

unfoldable pub atoi : Text → Option ℤ
unfolding unsigned positive negative
atoi [] = none
atoi (c ∷ s) =
    if c == b'-'
    then negative (unsigned s)
    else if c == b'+'
    then positive (unsigned s)
    else positive (unsigned (c ∷ s))

value-digits_onto : (f n : ℕ) (rest : Text) → n < f → value 0 (digits_onto f n rest) ≡ value n rest
unfolding value digits_onto
value-digits_onto zero n rest h = elim h [ ]
value-digits_onto (suc f) n rest h = elim (Bool-cases (ltb n 10)) [
  | inl small ↦ rw small (ap (λ z. value z rest) (omega arith))
  | inr large ↦ rw large (
      value-digits_onto f (n / 10) ((b'0' + n % 10) ∷ rest) (ground arith)
      ∙ ap (λ z. value z rest) (omega arith))
]

all-digits_onto :
    (f n : ℕ) (rest : Text) → all is_digit rest ≡ true → all is_digit (digits_onto f n rest) ≡ true
unfolding is_digit digits_onto
all-digits_onto zero n rest h = h
all-digits_onto (suc f) n rest h =
    ground (arith, all-digits_onto f (n / 10) ((b'0' + n % 10) ∷ rest))

atoi_of_digits :
    (s : Text)
    → all is_digit s ≡ true
    → value 0 s < int_limit
    → s ≢ []
    → atoi s ≡ some (pos (value 0 s))
unfolding atoi is_digit value
atoi_of_digits [] h small some_digit = absurd (some_digit refl)
atoi_of_digits (c ∷ s) h small some_digit = ground arith

digits_onto-ne-nil : (f n : ℕ) (rest : Text) → rest ≢ [] → digits_onto f n rest ≢ []
unfolding digits_onto
digits_onto-ne-nil zero n rest h = h
digits_onto-ne-nil (suc f) n rest h =
    ground (arith, digits_onto-ne-nil f (n / 10) ((b'0' + n % 10) ∷ rest))

itoa-ne-nil : (n : ℕ) → itoa n ≢ []
unfolding itoa
itoa-ne-nil n = ground (arith, digits_onto-ne-nil n (n / 10) ((b'0' + n % 10) ∷ []))

-- A token that was printed from a number of 63 bits is read back.
pub atoi-itoa : (n : ℕ) → n < int_limit → atoi (itoa n) ≡ some (pos n)
unfolding itoa
atoi-itoa n h =
    let v = value-digits_onto (suc n) n [] (omega arith) in
    atoi_of_digits (itoa n) (all-digits_onto (suc n) n [] refl) (rw v (unfold value in h))
      (itoa-ne-nil n)
    ∙ ap (λ z. some (pos z)) (v ∙ unfold value in refl)

pub itoa_some : (n : ℕ) → text_eq (itoa n) [] ≡ false
itoa_some n = ground (arith, text_eq_iff (itoa n) [], itoa-ne-nil n)
