-- ===== src/Containers/Queue/Modulo.antt =====
-- Positions in a ring: remainders of consecutive numbers.
use native.Mathlib.Nat.{mod-lt, mod-eq_of_lt, mod-add-mod, mod-eq-sub-mod}
use kengen.Base.{ℕ, ◌+◌, ◌-◌, ◌%◌, ◌<◌, ◌≤◌, ◌≡◌, sym, ◌∙◌, ◌⊎◌, inl, inr, Bool-cases, ltb, arith}

-- The position of `t + i`, for `i` at most the capacity.
position :
    (t i c : ℕ)
    → i ≤ c
    → 0 < c
    → ((t + i) % c ≡ t % c + i) × (t % c + i < c) ⊎ ((t + i) % c ≡ t % c + i - c) × (c ≤ t % c + i)
position t i c h p = elim (Bool-cases (ltb (t % c + i) c)) [
  | inl e ↦ inl (sym (mod-add-mod t c i) ∙ mod-eq_of_lt (ground (arith, e)), ground (arith, e))
  | inr e ↦ inr (
    sym (mod-add-mod t c i)
        ∙ mod-eq-sub-mod (ground (arith, e))
        ∙ mod-eq_of_lt {n = t % c + i - c} {m = c} (omega (arith, mod-lt t p)),
    ground (arith, e),
  )
]

-- Two of `c` consecutive numbers have different remainders.
pub mod-injective : (t i j c : ℕ) → i < c → j < c → (t + i) % c ≡ (t + j) % c → i ≡ j
mod-injective t i j c hi hj h =
    let p = position t i c (omega arith) (omega arith) in
    let q = position t j c (omega arith) (omega arith) in
    let r = mod-lt t {m = c} (omega arith) in
    elim p [
      | inl a ↦ elim q [ inl b ↦ omega (arith, a, b, r, h) | inr b ↦ omega (arith, a, b, r, h) ]
      | inr a ↦ elim q [ inl b ↦ omega (arith, a, b, r, h) | inr b ↦ omega (arith, a, b, r, h) ]
    ]

-- One round around the ring.
pub mod-add_self : (t c : ℕ) → 0 < c → (t + c) % c ≡ t % c
mod-add_self t c p = elim (position t c c (omega arith) p) [
  | inl a ↦ omega (arith, a)
  | inr a ↦ omega (arith, a)
]
