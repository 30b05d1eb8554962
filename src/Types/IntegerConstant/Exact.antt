-- ===== src/Types/IntegerConstant/Exact.antt =====
-- src/types/IntegerConstant.cpp: the folded operators against arithmetic on integers.
use trans.Prelude.{ℕ, ◌<◌, ◌≡◌, refl, Bool, true, false, arith, ℤ, some, ap, ◌∙◌}
use trans.Types.Operator.{BinaryOp}
use trans.Types.CType.{CType, Heap}
use trans.Types.Query.{is_integral, usual_arithmetic_result}
use trans.Types.IntegerConstant.{
  IntegerConstant, bits_mod, of_ℤ, width_bits, signed_integral, canonicalize, convert,
}
use trans.Types.IntegerConstant.Value.{InRange, value_of, IsWidth, canonical_bits-of_ℤ}
use trans.Types.IntegerConstant.Fold.{fold_binary, fold_common, is_comparison, is_shift}
use trans.Types.IntegerConstant.Operand.{
  IsCommon, arithmetic_bits_exact, bits_in, bits_in-IsPlain, convert-common, exact, usual-IsCommon,
  value, width_bits-IsWidth,
}

-- A constant of an integer type, within its 128 bits.
abbrev pub IsInteger : IntegerConstant → Type 0
IsInteger c = (is_integral c.type ≡ true) × (c.bits < bits_mod)

abbrev pub common_type : Heap → IntegerConstant → IntegerConstant → CType
common_type heap l r = usual_arithmetic_result heap l.type r.type

-- An operand, in the common type.
abbrev pub operand_value : Heap → IntegerConstant → CType → ℤ
operand_value heap c t = value (convert heap c t)

pub value_of-of_ℤ : (n : ℕ) (s : Bool) (z : ℤ) → IsWidth n → InRange n s z → value_of s (of_ℤ z) ≡ z
value_of-of_ℤ n s z w h = ground arith

exact_kind :
    (op : BinaryOp) (a b : ℤ) {z : ℤ}
    → exact op a b ≡ some z
    → (is_comparison op ≡ false) × (is_shift op ≡ false)
exact_kind op a b e = ground arith

fold_common_exact :
    (heap : Heap) (op : BinaryOp) (l r : IntegerConstant) (t : CType) (z : ℤ)
    → IsCommon heap t
    → l.bits < bits_mod
    → r.bits < bits_mod
    → exact op (operand_value heap l t) (operand_value heap r t) ≡ some z
    → InRange (width_bits heap t) (signed_integral t) z
    → fold_common heap op (convert heap l t) (convert heap r t) t
      ≡ some (record { bits = of_ℤ z; type = t })
unfolding fold_common canonicalize
fold_common_exact heap op l r t z k hl hr e range =
    let p = convert-common heap t l k in
    let q = convert-common heap t r k in
    let e' = rw (p, q) at e in
    let b =
      arithmetic_bits_exact heap t k op (bits_in heap t k l.bits) (bits_in heap t k r.bits) z
        (bits_in-IsPlain heap t k l.bits hl) (bits_in-IsPlain heap t k r.bits hr) e' in
    rw ((exact_kind op _ _ e').0, p, q, b)
      (ap (λ x. some (record { bits = x; type = t }))
        (canonical_bits-of_ℤ _ _ z (width_bits-IsWidth heap t k) range))

abbrev pub is_logical : BinaryOp → Bool
is_logical BinaryOp.log_and = true
is_logical BinaryOp.log_or = true
is_logical _ = false

pub fold_binary-common :
    (heap : Heap) (op : BinaryOp) (l r : IntegerConstant)
    → is_logical op ≡ false
    → is_shift op ≡ false
    → is_integral l.type ≡ true
    → is_integral r.type ≡ true
    → fold_binary heap op l r
      ≡ fold_common heap op
          (convert heap l (common_type heap l r))
          (convert heap r (common_type heap l r))
          (common_type heap l r)
unfolding fold_binary
fold_binary-common heap BinaryOp.log_and l r a b p q = cc
fold_binary-common heap BinaryOp.log_or l r a b p q = cc
fold_binary-common heap BinaryOp.shl l r a b p q = cc
fold_binary-common heap BinaryOp.shr l r a b p q = cc
fold_binary-common heap _ l r a b p q = rw (p, q) refl

exact-logical : (op : BinaryOp) (a b : ℤ) {z : ℤ} → exact op a b ≡ some z → is_logical op ≡ false
exact-logical op a b e = ground arith

-- For operands of integer types, `+`, `-`, `*`, `/` and `%` fold to the result of the operator on the
-- integers that the operands stand for in the common type, with that type, whenever there is one and it
-- is in the range of the type. Division rounds towards zero.
pub fold_binary_exact :
    (heap : Heap) (op : BinaryOp) (l r : IntegerConstant) (z : ℤ)
    → IsInteger l
    → IsInteger r
    → exact op
        (operand_value heap l (common_type heap l r))
        (operand_value heap r (common_type heap l r))
      ≡ some z
    → InRange (width_bits heap (common_type heap l r)) (signed_integral (common_type heap l r)) z
    → (fold_binary heap op l r ≡ some (record { bits = of_ℤ z; type = common_type heap l r }))
      × (value (record { bits = of_ℤ z; type = common_type heap l r }) ≡ z)
fold_binary_exact heap op l r z hl hr e range =
    let k = usual-IsCommon heap l.type r.type hl.0 hr.0 in
    (
      fold_binary-common heap op l r (exact-logical op _ _ e) (exact_kind op _ _ e).1 hl.0 hr.0
          ∙ fold_common_exact heap op l r (common_type heap l r) z k hl.1 hr.1 e range,
      value_of-of_ℤ _ _ z (width_bits-IsWidth heap _ k) range,
    )
