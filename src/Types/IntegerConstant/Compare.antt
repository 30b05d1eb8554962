-- ===== src/Types/IntegerConstant/Compare.antt =====
-- src/types/IntegerConstant.cpp: the folded comparisons against the order of the integers.
use trans.Prelude.{
  ℕ, ◌<◌, ◌≡◌, refl, Bool, true, false, not, ◌&&◌, arith, ◌==◌, ℤ, sym, pos, ltb, ltb_ℤ, leb_ℤ,
  some, ap, ◌∙◌,
}
use trans.Types.Operator.{BinaryOp}
use trans.Types.CType.{CType, Heap}
use trans.Types.Query.{signed_integer_type}
use trans.Types.IntegerConstant.{
  IntegerConstant, bits_mod, of_bool, signed_bits, width_bits, signed_integral, canonicalize,
  convert, as_unsigned, signed_value,
}
use trans.Types.IntegerConstant.Value.{value_of}
use trans.Types.IntegerConstant.Fold.{
  fold_binary, fold_common, fold_comparison, compared, is_comparison, is_shift,
}
use trans.Types.IntegerConstant.Operand.{
  IsCommon, usual-IsCommon, convert-common, bits_in, in_type, bits_in-lt, as_unsigned-bits_in,
}
use trans.Types.IntegerConstant.Exact.{
  IsInteger, common_type, operand_value, is_logical, fold_binary-common,
}

-- Comparison of integers.
abbrev pub holds : BinaryOp → ℤ → ℤ → Bool
holds BinaryOp.lt a b = ltb_ℤ a b
holds BinaryOp.gt a b = ltb_ℤ b a
holds BinaryOp.le a b = leb_ℤ a b
holds BinaryOp.ge a b = leb_ℤ b a
holds BinaryOp.eq a b = leb_ℤ a b && leb_ℤ b a
holds BinaryOp.ne a b = not (leb_ℤ a b && leb_ℤ b a)
holds _ a b = false

tests_agree : (u v x y : ℕ) → (u ≡ v → x ≡ y) → (x ≡ y → u ≡ v) → (u == v) ≡ (x == y)
tests_agree u v x y f g = ground arith

signed_order :
    (op : BinaryOp) (x y : ℕ) (less : Bool)
    → x < bits_mod
    → y < bits_mod
    → compared op false (ltb_ℤ (signed_bits x) (signed_bits y)) less (x == y)
      ≡ holds op (signed_bits x) (signed_bits y)
signed_order op x y less hx hy = ground arith

unsigned_order :
    (op : BinaryOp) (x y : ℕ)
    → compared op true (ltb_ℤ (signed_bits x) (signed_bits y)) (ltb x y) (x == y)
      ≡ holds op (pos x) (pos y)
unsigned_order op x y = ground arith

module _ (heap : Heap) (t : CType) (common : IsCommon heap t) where
  -- The unsigned reading determines the bits.
  as_unsigned_inverse :
      (b : ℕ)
      → b < bits_mod
      → bits_in heap t common (as_unsigned heap (in_type heap t common (bits_in heap t common b)))
        ≡ bits_in heap t common b
  unfolding as_unsigned width_bits
  as_unsigned_inverse b h = ground arith

  abbrev unsigned_of : ℕ → ℕ
  unsigned_of x = as_unsigned heap (in_type heap t common x)

  same_bits :
      (b c : ℕ)
      → b < bits_mod
      → c < bits_mod
      → (unsigned_of (bits_in heap t common b) == unsigned_of (bits_in heap t common c))
        ≡ (bits_in heap t common b == bits_in heap t common c)
  same_bits b c hb hc =
      tests_agree (unsigned_of (bits_in heap t common b)) (unsigned_of (bits_in heap t common c))
        (bits_in heap t common b) (bits_in heap t common c)
        (λ e.
          sym (as_unsigned_inverse b hb) ∙ ap (bits_in heap t common) e ∙ as_unsigned_inverse c hc)
        (ap unsigned_of)

pub converted :
    (heap : Heap) (t : CType) (k : IsCommon heap t) (c : IntegerConstant)
    → convert heap c t ≡ in_type heap t k (bits_in heap t k c.bits)
unfolding canonicalize
converted heap t k c = convert-common heap t c k

-- Two readings `u` and `v` of bits `x` and `y`, which are the bits where the type is unsigned.
compared_lem :
    (op : BinaryOp) (s : Bool) (x y u v : ℕ)
    → x < bits_mod
    → y < bits_mod
    → (s ≡ false → u ≡ x)
    → (s ≡ false → v ≡ y)
    → (u == v) ≡ (x == y)
    → compared op (not s) (ltb_ℤ (signed_bits x) (signed_bits y)) (ltb u v) (u == v)
      ≡ holds op (value_of s x) (value_of s y)
compared_lem op true x y u v hx hy p q e = rw e (signed_order op x y (ltb u v) hx hy)
compared_lem op false x y u v hx hy p q e = rw (p refl, q refl) (unsigned_order op x y)

comparison_kind :
    (op : BinaryOp) → is_comparison op ≡ true → (is_logical op ≡ false) × (is_shift op ≡ false)
comparison_kind op c = ground arith

truth_bits :
    (heap : Heap) (b : Bool)
    → (canonicalize heap (of_bool b) signed_integer_type)
      ≡ record { bits = of_bool b; type = signed_integer_type }
unfolding canonicalize
truth_bits heap true = refl
truth_bits heap false = refl

fold_common_compare :
    (heap : Heap) (op : BinaryOp) (l r : IntegerConstant) (t : CType)
    → IsCommon heap t
    → l.bits < bits_mod
    → r.bits < bits_mod
    → is_comparison op ≡ true
    → fold_common heap op (convert heap l t) (convert heap r t) t
      ≡ some (record {
        bits = of_bool (holds op (operand_value heap l t) (operand_value heap r t));
        type = signed_integer_type;
      })
unfolding fold_common fold_comparison signed_value
fold_common_compare heap op l r t k hl hr c =
    let p = converted heap t k l in
    let q = converted heap t k r in
    let x = bits_in heap t k l.bits in
    let y = bits_in heap t k r.bits in
    rw (c, p, q)
      (ap some (
        truth_bits heap _
        ∙ ap (λ b. record { bits = of_bool b; type = signed_integer_type })
            (compared_lem op (signed_integral t) x y (unsigned_of heap t k x)
              (unsigned_of heap t k y) (bits_in-lt heap t k l.bits hl)
              (bits_in-lt heap t k r.bits hr) (as_unsigned-bits_in heap t k l.bits hl)
              (as_unsigned-bits_in heap t k r.bits hr) (same_bits heap t k l.bits r.bits hl hr))))

-- For operands of integer types, each comparison folds to the `int` 1 or 0 as the comparison holds
-- or not of the integers that the operands stand for in the common type.
pub fold_binary_compare :
    (heap : Heap) (op : BinaryOp) (l r : IntegerConstant)
    → IsInteger l
    → IsInteger r
    → is_comparison op ≡ true
    → fold_binary heap op l r
      ≡ some (record {
        bits = of_bool (
            holds op
              (operand_value heap l (common_type heap l r))
              (operand_value heap r (common_type heap l r)));
        type = signed_integer_type;
      })
fold_binary_compare heap op l r hl hr c =
    let t = common_type heap l r in
    let k = usual-IsCommon heap l.type r.type hl.0 hr.0 in
    fold_binary-common heap op l r (comparison_kind op c).0 (comparison_kind op c).1 hl.0 hr.0
    ∙ fold_common_compare heap op l r t k hl.1 hr.1 c
