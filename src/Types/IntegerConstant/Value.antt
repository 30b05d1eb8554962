-- ===== src/Types/IntegerConstant/Value.antt =====
-- src/types/IntegerConstant.cpp: the integer that the bits of a constant stand for.
use trans.Prelude.{
  ℕ, suc, ◌+◌, ◌-◌, ◌*◌, ◌%◌, ◌^◌, ◌<◌, ◌≡◌, refl, ◌⊎◌, inl, inr, ap, sub_ℕ, Bool-cases, Bool, true,
  false, arith, ltb, ℤ, pos, negsuc, ◌+ℤ◌, ◌-ℤ◌, ◌*ℤ◌, ◌≤ℤ◌,
}
use trans.Types.IntegerConstant.{bits_mod, half_mod, of_ℤ, signed_bits, canonical_bits}

-- The integers of a type of a width, a number of bits.
abbrev pub InRange : ℕ → Bool → ℤ → Type 0
InRange n true z = (negsuc (2 ^ (n - 1) - 1) ≤ℤ z) × (z ≤ℤ pos (2 ^ (n - 1) - 1))
InRange n false z = (pos 0 ≤ℤ z) × (z ≤ℤ pos (2 ^ n - 1))

-- What bits stand for.
abbrev pub value_of : Bool → ℕ → ℤ
value_of true b = signed_bits b
value_of false b = pos b

abbrev pub IsWidth : ℕ → Type 0
IsWidth n = (n ≡ 8) ⊎ (n ≡ 16) ⊎ (n ≡ 32) ⊎ (n ≡ 64) ⊎ (n ≡ 128)

pub canonical_bits-of_ℤ :
    (n : ℕ) (s : Bool) (z : ℤ) → IsWidth n → InRange n s z → canonical_bits n s (of_ℤ z) ≡ of_ℤ z
canonical_bits-of_ℤ n s z w h = ground arith

pub of_ℤ-value_of : (s : Bool) (b : ℕ) → b < bits_mod → of_ℤ (value_of s b) ≡ b
of_ℤ-value_of s b h = ground arith

pub canonical_bits-InRange :
    (n : ℕ) (s : Bool) (b : ℕ)
    → IsWidth n
    → b < bits_mod
    → InRange n s (value_of s (canonical_bits n s b))
canonical_bits-InRange n s b w h = ground arith

pub of_ℤ-add : (a b : ℤ) → (of_ℤ a + of_ℤ b) % bits_mod ≡ of_ℤ (a +ℤ b)
unfolding ◌+ℤ◌
of_ℤ-add a b = ground arith

pub of_ℤ-sub : (a b : ℤ) → (of_ℤ a + (bits_mod - of_ℤ b)) % bits_mod ≡ of_ℤ (a -ℤ b)
unfolding ◌-ℤ◌
of_ℤ-sub a b = ground arith

-- A product, with one or both factors negative, in 2 ^ 128.
neg_product : (p q r : ℕ) → p + q ≡ bits_mod * r → p % bits_mod ≡ of_ℤ (sub_ℕ 0 q)
neg_product p q r e = ground arith

left_parts : (a a' b c : ℕ) → a + a' ≡ c → a * b + a' * b ≡ c * b
left_parts a a' b c e = grind (arith, ap (λ (t : ℕ). t * b) e)

right_parts : (a b b' c : ℕ) → b + b' ≡ c → a * b + a * b' ≡ a * c
right_parts a b b' c e = grind (arith, ap (λ (t : ℕ). a * t) e)

-- The four cases of the signs, the complements of the factors as variables.
mul_signs :
    (a b a' b' : ℕ)
    → a + a' ≡ bits_mod
    → b + b' ≡ bits_mod
    → (a * b' % bits_mod ≡ of_ℤ (sub_ℕ 0 (a * b)))
      × (a' * b % bits_mod ≡ of_ℤ (sub_ℕ 0 (a * b)))
      × (a' * b' % bits_mod ≡ a * b % bits_mod)
mul_signs a b a' b' ea eb =
    let r = right_parts a b b' bits_mod eb in
    let l = left_parts a a' b bits_mod ea in
    let r' = right_parts a' b b' bits_mod eb in
    (
      neg_product (a * b') (a * b) a (omega arith),
      neg_product (a' * b) (a * b) b (omega arith),
      omega arith,
    )

pub signed_bits-mul :
    (a b : ℕ)
    → a < bits_mod
    → b < bits_mod
    → a * b % bits_mod ≡ of_ℤ (signed_bits a *ℤ signed_bits b)
unfolding ◌*ℤ◌
signed_bits-mul a b ha hb =
    let ea : suc (bits_mod - 1 - a) ≡ bits_mod - a = omega arith in
    let eb : suc (bits_mod - 1 - b) ≡ bits_mod - b = omega arith in
    elim (Bool-cases (ltb a half_mod)) [
      | inl p ↦ elim (Bool-cases (ltb b half_mod)) [
        | inl q ↦ rw (p, q) refl
        | inr q ↦
            rw (p, q, eb)
              (mul_signs a (bits_mod - b) (bits_mod - a) b (omega arith) (omega arith)).0
      ]
      | inr p ↦ elim (Bool-cases (ltb b half_mod)) [
        | inl q ↦
            rw (p, q, ea)
              (mul_signs (bits_mod - a) b a (bits_mod - b) (omega arith) (omega arith)).1
        | inr q ↦
            rw (p, q, ea, eb)
              (mul_signs (bits_mod - a) (bits_mod - b) a b (omega arith) (omega arith)).2
      ]
    ]
