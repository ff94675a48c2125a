-- ===== src/Containers/Queue/Bits.antt =====
-- internal/containers/mpmc/queue.go: `isPowerOfTwo` and `mask`, which work on the binary digits of a number.
use Prim.Native.Nat.{bit_and, digits, bit_and-bitwise}
use native.Mathlib.Nat.{
  one-le-pow, two-pow-succ, mod-lt, mod-eq_of_lt, mul-add-mod_self_left, div-add-mod,
}
use kengen.Base.{
  ℕ, zero, suc, ◌+◌, ◌-◌, ◌*◌, ◌/◌, ◌%◌, ◌^◌, ◌≤◌, ◌<◌, ◌≡◌, inl, inr, refl, sym, ap, subst, ◌∙◌,
  true, false, min, Bool-cases, ◌==◌, arith,
}
use kengen.Containers.Queue.{is_power_of_two}

abbrev pub PowerOfTwo : ℕ → Type 0
PowerOfTwo n = (k : ℕ) × (n ≡ 2 ^ k)

-- The digits that `a` and `b` share, of the first `n`.
abbrev common : ℕ → ℕ → ℕ → ℕ
common n a b = digits (λ _. 0) min n a b

-- The lowest digit of a remainder by an even number.
mod-double : (a c : ℕ) → 0 < c → a % (c + c) ≡ a / 2 % c * 2 + a % 2
mod-double a c p =
    let small : a / 2 % c * 2 + a % 2 < c + c = omega (arith, mod-lt (a / 2) p) in
    let whole : (c + c) * (a / 2 / c) + (a / 2 % c * 2 + a % 2) ≡ a =
      omega (arith, div-add-mod (a / 2) c) in
    ap (λ z. z % (c + c)) (sym whole)
    ∙ mul-add-mod_self_left (c + c) (a / 2 / c) (a / 2 % c * 2 + a % 2)
    ∙ mod-eq_of_lt small

common_low : (n a k : ℕ) → a ≤ n → common n a (2 ^ k - 1) ≡ a % 2 ^ k
common_low zero zero k h = ground (arith, one-le-pow k 2)
common_low zero (suc a) k h = absurd (omega arith)
common_low (suc n) zero k h = ground (arith, one-le-pow k 2)
common_low (suc n) (suc a) zero h = ground (arith, common_low n (suc a / 2) 0 (omega arith))
common_low (suc n) (suc a) (suc k) h =
    let half : (2 ^ suc k - 1) / 2 ≡ 2 ^ k - 1 = omega (arith, two-pow-succ k, one-le-pow k 2) in
    let odd : min (suc a % 2) ((2 ^ suc k - 1) % 2) ≡ suc a % 2 =
      ground (arith, two-pow-succ k, one-le-pow k 2) in
    let below = common_low n (suc a / 2) k (omega arith) in
    let twice = mod-double (suc a) (2 ^ k) (one-le-pow k 2 (omega arith)) in
    rw (half, odd, below, two-pow-succ k, twice) refl

common_self : (n a : ℕ) → a ≤ n → common n a a ≡ a
common_self zero zero h = refl
common_self zero (suc a) h = absurd (omega arith)
common_self (suc n) zero h = refl
common_self (suc n) (suc a) h = ground (arith, common_self n (suc a / 2) (omega arith))

-- The source's `mask` is the remainder.
pub mask_remainder : (c a : ℕ) → PowerOfTwo c → bit_and a (c - 1) ≡ a % c
mask_remainder c a (k, e) =
    ap (λ z. bit_and a (z - 1)) e
    ∙ simp bit_and-bitwise (common_low a a k (omega arith))
    ∙ ap (λ z. a % z) (sym e)

-- A number that shares no digit with the one before is a power of two.
common_power : (n a : ℕ) → suc a ≤ n → common n (suc a) a ≡ 0 → PowerOfTwo (suc a)
common_power zero a h e = absurd (omega arith)
common_power (suc n) a h e =
    let sum : common n (suc a / 2) (a / 2) * 2 + min (suc a % 2) (a % 2) ≡ 0 = e in
    let rest : common n (suc a / 2) (a / 2) ≡ 0 = omega (arith, sum) in
    elim (Bool-cases (suc a % 2 == 0)) [
      | inl even ↦
          let half : suc a / 2 ≡ suc (a / 2) = ground (arith, even) in
          let (k, power) =
            common_power n (a / 2) (omega (arith, half))
              (subst (λ z. common n z (a / 2) ≡ 0) half rest) in
          (suc k, omega (arith, half, power, even_digit even, two-pow-succ k))
      | inr odd ↦
          let half : suc a / 2 ≡ a / 2 = ground (arith, odd) in
          let none_left : common n (a / 2) (a / 2) ≡ 0 =
            subst (λ z. common n z (a / 2) ≡ 0) half rest in
          (0, ap suc (single (common_self n (a / 2) (omega arith)) none_left odd))
    ]
  where
    even_digit : (suc a % 2 == 0) ≡ true → suc a % 2 ≡ 0
    even_digit even = ground (arith, even)

    single : {c : ℕ} → c ≡ a / 2 → c ≡ 0 → (suc a % 2 == 0) ≡ false → a ≡ 0
    single same nothing odd = ground (arith, same, nothing, odd)

pub is_power_of_two-PowerOfTwo : (n : ℕ) → is_power_of_two n ≡ true → PowerOfTwo n
unfolding is_power_of_two
is_power_of_two-PowerOfTwo zero h = absurd (ground (arith, h))
is_power_of_two-PowerOfTwo (suc a) h =
    let apart : bit_and (suc a) (suc a - 1) ≡ 0 = ground (arith, h) in
    let before : suc a - 1 ≡ a = omega arith in
    common_power (suc a) a (omega arith)
      (simp bit_and-bitwise at (subst (λ z. bit_and (suc a) z ≡ 0) before apart))

pub PowerOfTwo-double : (n : ℕ) → PowerOfTwo n → PowerOfTwo (n * 2)
PowerOfTwo-double n (k, e) = (suc k, omega (arith, e, two-pow-succ k))
