-- ===== src/Types/IntegerConstant/Operand.antt =====
-- src/types/IntegerConstant.cpp: the operands of an operator, converted to their common type.
use trans.Prelude.{
  ℕ, ◌+◌, ◌-◌, ◌*◌, ◌/◌, ◌%◌, ◌<◌, ◌≡◌, refl, ◌⊎◌, inl, inr, Bool, true, false, not, arith,
  if◌then◌else◌, ℤ, pos, is_zero, ◌+ℤ◌, ◌-ℤ◌, ◌*ℤ◌, ◌/ℤ◌, ◌%ℤ◌, Option, none, some, sym, ap, ◌∙◌,
  Bool-cases,
}
use native.Mathlib.Nat.{div-le_self, mod-le}
use trans.Types.Operator.{BinaryOp}
use trans.Types.CType.{CType, Heap, get_size}
use trans.Types.Query.{is_integral, is_boolean, usual_arithmetic_result}
use trans.Types.IntegerConstant.{
  IntegerConstant, bits_mod, of_ℤ, canonical_bits, width_bits, signed_integral, canonicalize,
  convert, as_unsigned, is_zero_constant, signed_value,
}
use trans.Types.IntegerConstant.Value.{
  value_of, IsWidth, of_ℤ-value_of, of_ℤ-add, of_ℤ-sub, signed_bits-mul,
}
use trans.Types.IntegerConstant.Fold.{arithmetic_bits}

-- What a constant stands for, by the sign of its type.
abbrev pub value : IntegerConstant → ℤ
value c = value_of (signed_integral c.type) c.bits

-- The operators of arithmetic on integers, where they have a result.
abbrev pub exact : BinaryOp → ℤ → ℤ → Option ℤ
exact BinaryOp.add a b = some (a +ℤ b)
exact BinaryOp.sub a b = some (a -ℤ b)
exact BinaryOp.mul a b = some (a *ℤ b)
exact BinaryOp.div a b = if is_zero b then none else some (a /ℤ b)
exact BinaryOp.modulo a b = if is_zero b then none else some (a %ℤ b)
exact _ a b = none

-- The types that the operands of an operator are brought to.
abbrev pub IsCommon : Heap → CType → Type 0
IsCommon heap t =
    (is_integral t ≡ true)
    × (is_boolean t ≡ false)
    × ((get_size heap t ≡ 4) ⊎ (get_size heap t ≡ 8) ⊎ (get_size heap t ≡ 16))

pub usual-IsCommon :
    (heap : Heap) (l r : CType)
    → is_integral l ≡ true
    → is_integral r ≡ true
    → IsCommon heap (usual_arithmetic_result heap l r)
unfolding usual_arithmetic_result is_integral is_boolean get_size
usual-IsCommon heap l r p q = ground arith

pub convert-common :
    (heap : Heap) (t : CType) (c : IntegerConstant)
    → IsCommon heap t
    → convert heap c t ≡ canonicalize heap c.bits t
unfolding convert is_integral is_boolean canonicalize
convert-common heap t c h = ground arith

some_inj : {A : Type 0} {a b : A} → some a ≡ some b → a ≡ b
some_inj e = cc

none-ne-some : {A : Type 0} {a : A} → ◌≡◌ {A = Option A} none (some a) → ⊥
none-ne-some e = cc

module _ (heap : Heap) (t : CType) (common : IsCommon heap t) where
  pub width_bits-IsWidth : IsWidth (width_bits heap t)
  unfolding width_bits
  width_bits-IsWidth = ground arith

  -- The bits of a converted operand.
  abbrev pub bits_in : ℕ → ℕ
  bits_in b = canonical_bits (width_bits heap t) (signed_integral t) b

  abbrev pub in_type : ℕ → IntegerConstant
  in_type b = record { bits = b; type = t }

  pub bits_in-lt : (b : ℕ) → b < bits_mod → bits_in b < bits_mod
  unfolding width_bits
  bits_in-lt b h = ground arith

  pub zero-bits_in :
      (b : ℕ)
      → b < bits_mod
      → is_zero_constant heap (in_type (bits_in b))
        ≡ is_zero (value_of (signed_integral t) (bits_in b))
  unfolding is_zero_constant width_bits
  zero-bits_in b h = ground arith

  pub as_unsigned-bits_in :
      (b : ℕ)
      → b < bits_mod
      → signed_integral t ≡ false
      → as_unsigned heap (in_type (bits_in b)) ≡ bits_in b
  unfolding as_unsigned width_bits
  as_unsigned-bits_in b h u = ground arith

  add_exact :
      (s : Bool) (x y : ℕ)
      → x < bits_mod
      → y < bits_mod
      → (x + y) % bits_mod ≡ of_ℤ (value_of s x +ℤ value_of s y)
  add_exact s x y hx hy =
      rw (sym (of_ℤ-add (value_of s x) (value_of s y)), of_ℤ-value_of s x hx, of_ℤ-value_of s y hy)
        refl

  sub_exact :
      (s : Bool) (x y : ℕ)
      → x < bits_mod
      → y < bits_mod
      → (x + (bits_mod - y)) % bits_mod ≡ of_ℤ (value_of s x -ℤ value_of s y)
  sub_exact s x y hx hy =
      rw (sym (of_ℤ-sub (value_of s x) (value_of s y)), of_ℤ-value_of s x hx, of_ℤ-value_of s y hy)
        refl

  mul_exact :
      (s : Bool) (x y : ℕ)
      → x < bits_mod
      → y < bits_mod
      → x * y % bits_mod ≡ of_ℤ (value_of s x *ℤ value_of s y)
  unfolding ◌*ℤ◌
  mul_exact true x y hx hy = signed_bits-mul x y hx hy
  mul_exact false x y hx hy = refl

  div_exact : (x y : ℕ) → x < bits_mod → x / y ≡ of_ℤ (pos x /ℤ pos y)
  unfolding ◌/ℤ◌
  div_exact x y hx = omega (arith, div-le_self x y)

  mod_exact : (x y : ℕ) → x < bits_mod → x % y ≡ of_ℤ (pos x %ℤ pos y)
  unfolding ◌%ℤ◌
  mod_exact x y hx = omega (arith, mod-le x y)

  abbrev pub sign : Bool
  sign = signed_integral t

  -- Bits of the type whose reading as unsigned loses nothing.
  pub record IsPlain (x : ℕ) : Type 0 where
    below : x < bits_mod
    same : sign ≡ false → as_unsigned heap (in_type x) ≡ x
    zeros : is_zero_constant heap (in_type x) ≡ is_zero (value_of sign x)

  pub bits_in-IsPlain : (b : ℕ) → b < bits_mod → IsPlain (bits_in b)
  bits_in-IsPlain b h = record {
    below = bits_in-lt b h;
    same = as_unsigned-bits_in b h;
    zeros = zero-bits_in b h;
  }

  div_bits :
      (x y : ℕ)
      → IsPlain x
      → IsPlain y
      → ◌≡◌ {A = Option ℕ}
          (if not sign
            then some (as_unsigned heap (in_type x) / as_unsigned heap (in_type y))
            else some (of_ℤ (signed_value (in_type x) /ℤ signed_value (in_type y))))
          (some (of_ℤ (value_of sign x /ℤ value_of sign y)))
  unfolding signed_value
  div_bits x y p q = elim (Bool-cases sign) [
    | inl s ↦ rw s refl
    | inr s ↦ rw (s, p.same s, q.same s) (ap some (div_exact x y p.below))
  ]

  mod_bits :
      (x y : ℕ)
      → IsPlain x
      → IsPlain y
      → ◌≡◌ {A = Option ℕ}
          (if not sign
            then some (as_unsigned heap (in_type x) % as_unsigned heap (in_type y))
            else some (of_ℤ (signed_value (in_type x) %ℤ signed_value (in_type y))))
          (some (of_ℤ (value_of sign x %ℤ value_of sign y)))
  unfolding signed_value
  mod_bits x y p q = elim (Bool-cases sign) [
    | inl s ↦ rw s refl
    | inr s ↦ rw (s, p.same s, q.same s) (ap some (mod_exact x y p.below))
  ]

  pub arithmetic_bits_exact :
      (op : BinaryOp) (x y : ℕ) (z : ℤ)
      → IsPlain x
      → IsPlain y
      → exact op (value_of sign x) (value_of sign y) ≡ some z
      → arithmetic_bits heap op (in_type x) (in_type y) (not sign) ≡ some (of_ℤ z)
  unfolding arithmetic_bits
  arithmetic_bits_exact BinaryOp.add x y z p q e =
      ap some (add_exact sign x y p.below q.below ∙ ap of_ℤ (some_inj e))
  arithmetic_bits_exact BinaryOp.sub x y z p q e =
      ap some (sub_exact sign x y p.below q.below ∙ ap of_ℤ (some_inj e))
  arithmetic_bits_exact BinaryOp.mul x y z p q e =
      ap some (mul_exact sign x y p.below q.below ∙ ap of_ℤ (some_inj e))
  arithmetic_bits_exact BinaryOp.div x y z p q e = elim (Bool-cases (is_zero (value_of sign y))) [
    | inl n ↦ absurd (none-ne-some (rw n at e))
    | inr n ↦ rw (q.zeros, n) (div_bits x y p q ∙ ap (λ v. some (of_ℤ v)) (some_inj (rw n at e)))
  ]
  arithmetic_bits_exact BinaryOp.modulo x y z p q e =
      elim (Bool-cases (is_zero (value_of sign y))) [
        | inl n ↦ absurd (none-ne-some (rw n at e))
        | inr n ↦
            rw (q.zeros, n) (mod_bits x y p q ∙ ap (λ v. some (of_ℤ v)) (some_inj (rw n at e)))
      ]
  arithmetic_bits_exact _ x y z p q e = cc
