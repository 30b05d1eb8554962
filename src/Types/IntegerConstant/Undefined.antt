-- ===== src/Types/IntegerConstant/Undefined.antt =====
-- src/types/IntegerConstant.cpp: the operands on which an operator does not fold.
use trans.Prelude.{
  ℕ, ◌<◌, ◌≡◌, refl, Bool, true, false, ◌&&◌, ◌||◌, arith, ◌==◌, ℤ, pos, leb, leb_ℤ, is_zero,
  Option, none, some,
}
use trans.Types.Operator.{BinaryOp}
use trans.Types.CType.{CType, Heap, get_size}
use trans.Types.Query.{is_integral, is_boolean, integer_promote}
use trans.Types.IntegerConstant.{
  IntegerConstant, bits_mod, half_mod, signed_bits, width_bits, signed_integral, convert,
  as_unsigned, signed_value,
}
use trans.Types.IntegerConstant.Value.{value_of, IsWidth}
use trans.Types.IntegerConstant.Fold.{
  fold_binary, fold_common, fold_shift, arithmetic_bits, is_shift, is_negative,
}
use trans.Types.IntegerConstant.Operand.{
  IsCommon, usual-IsCommon, bits_in, in_type, as_unsigned-bits_in, width_bits-IsWidth, zero-bits_in,
}
use trans.Types.IntegerConstant.Exact.{
  IsInteger, common_type, operand_value, is_logical, fold_binary-common,
}
use trans.Types.IntegerConstant.Compare.{converted}

abbrev pub is_none {ℓ} : {A : Type ℓ} → Option A → Bool
is_none none = true
is_none (some a) = false

-- A count that C does not define for a width.
abbrev pub bad_count : ℕ → ℤ → Bool
bad_count width count = is_negative count || leb_ℤ (pos width) count

abbrev pub promoted : Heap → IntegerConstant → CType
promoted heap c = integer_promote heap c.type

-- Division by zero, and a shift by a count that is negative or not below the width of the promoted
-- left operand.
abbrev pub undefined : Heap → BinaryOp → IntegerConstant → IntegerConstant → Bool
undefined heap BinaryOp.shl l r =
    bad_count (width_bits heap (promoted heap l)) (operand_value heap r (promoted heap r))
undefined heap BinaryOp.shr l r =
    bad_count (width_bits heap (promoted heap l)) (operand_value heap r (promoted heap r))
undefined heap BinaryOp.div l r = is_zero (operand_value heap r (common_type heap l r))
undefined heap BinaryOp.modulo l r = is_zero (operand_value heap r (common_type heap l r))
undefined heap _ l r = false

promoted-IsCommon :
    (heap : Heap) (t : CType) → is_integral t ≡ true → IsCommon heap (integer_promote heap t)
unfolding integer_promote is_integral is_boolean get_size
promoted-IsCommon heap t h = ground arith

module _ (heap : Heap) (t : CType) (common : IsCommon heap t) where
  unsigned-bits_in :
      (b : ℕ)
      → b < bits_mod
      → (bits_in heap t common b) < half_mod
      → as_unsigned heap (in_type heap t common (bits_in heap t common b)) ≡ bits_in heap t common b
  unfolding as_unsigned width_bits
  unsigned-bits_in b h p = ground arith

count_lem :
    (w x u : ℕ) (s : Bool)
    → (s ≡ false → u ≡ x)
    → (x < half_mod → u ≡ x)
    → ((s && is_negative (signed_bits x)) || leb w u) ≡ bad_count w (value_of s x)
count_lem w x u true p q = ground arith
count_lem w x u false p q = ground arith

nonzero_width : (n : ℕ) → IsWidth n → (n == 0) ≡ false
nonzero_width n w = ground arith

shift_none :
    (heap : Heap) (op : BinaryOp) (l : IntegerConstant) (t : CType) (c : ℕ)
    → (k : IsCommon heap t) → IsWidth (width_bits heap l.type)
    → c < bits_mod
    → is_none (fold_shift heap op l (in_type heap t k (bits_in heap t k c)))
      ≡ bad_count (width_bits heap l.type) (value_of (signed_integral t) (bits_in heap t k c))
unfolding fold_shift signed_value
shift_none heap op l t c k w h =
    let e =
      count_lem (width_bits heap l.type) (bits_in heap t k c)
        (as_unsigned heap (in_type heap t k (bits_in heap t k c))) (signed_integral t)
        (as_unsigned-bits_in heap t k c h) (unsigned-bits_in heap t k c h) in
    rw (nonzero_width (width_bits heap l.type) w, e) (ground arith)

fold_binary-shift :
    (heap : Heap) (op : BinaryOp) (l r : IntegerConstant)
    → is_shift op ≡ true
    → is_integral l.type ≡ true
    → is_integral r.type ≡ true
    → fold_binary heap op l r
      ≡ fold_shift heap op (convert heap l (promoted heap l)) (convert heap r (promoted heap r))
unfolding fold_binary
fold_binary-shift heap BinaryOp.shl l r b p q = rw (p, q) refl
fold_binary-shift heap BinaryOp.shr l r b p q = rw (p, q) refl
fold_binary-shift heap _ l r b p q = cc

shift_undefined :
    (heap : Heap) (op : BinaryOp) (l r : IntegerConstant)
    → is_shift op ≡ true
    → IsInteger l
    → IsInteger r
    → is_none (fold_binary heap op l r)
      ≡ bad_count (width_bits heap (promoted heap l)) (operand_value heap r (promoted heap r))
shift_undefined heap op l r b hl hr =
    let k = promoted-IsCommon heap r.type hr.0 in
    let j = promoted-IsCommon heap l.type hl.0 in
    rw
      (
        fold_binary-shift heap op l r b hl.0 hr.0,
        converted heap (promoted heap r) k r,
        converted heap (promoted heap l) j l,
      )
      (shift_none heap op _ (promoted heap r) r.bits k (width_bits-IsWidth heap (promoted heap l) j)
        hr.1)

abbrev is_division : BinaryOp → Bool
is_division BinaryOp.div = true
is_division BinaryOp.modulo = true
is_division _ = false

division_kind :
    (op : BinaryOp) → is_division op ≡ true → (is_logical op ≡ false) × (is_shift op ≡ false)
division_kind op c = ground arith

common_none :
    (heap : Heap) (op : BinaryOp) (t : CType) (l : IntegerConstant) (c : ℕ) (k : IsCommon heap t)
    → is_division op ≡ true
    → c < bits_mod
    → is_none (fold_common heap op l (in_type heap t k (bits_in heap t k c)) t)
      ≡ is_zero (value_of (signed_integral t) (bits_in heap t k c))
unfolding fold_common arithmetic_bits
common_none heap BinaryOp.div t l c k b h = rw (zero-bits_in heap t k c h) (ground arith)
common_none heap BinaryOp.modulo t l c k b h = rw (zero-bits_in heap t k c h) (ground arith)
common_none heap _ t l c k b h = cc

division_undefined :
    (heap : Heap) (op : BinaryOp) (l r : IntegerConstant)
    → is_division op ≡ true
    → IsInteger l
    → IsInteger r
    → is_none (fold_binary heap op l r) ≡ is_zero (operand_value heap r (common_type heap l r))
division_undefined heap op l r b hl hr =
    let t = common_type heap l r in
    let k = usual-IsCommon heap l.type r.type hl.0 hr.0 in
    let d = division_kind op b in
    rw
      (fold_binary-common heap op l r d.0 d.1 hl.0 hr.0, converted heap t k l, converted heap t k r)
      (common_none heap op t _ r.bits k b hr.1)

-- For operands of integer types, a shift does not fold exactly when the count is negative or not below
-- the width of the promoted left operand, division does not fold exactly when the divisor is zero, and
-- every other operator folds.
pub fold_binary-undefined :
    (heap : Heap) (op : BinaryOp) (l r : IntegerConstant)
    → IsInteger l
    → IsInteger r
    → is_none (fold_binary heap op l r) ≡ undefined heap op l r
unfolding fold_binary fold_common arithmetic_bits
fold_binary-undefined heap BinaryOp.shl l r hl hr = shift_undefined heap BinaryOp.shl l r refl hl hr
fold_binary-undefined heap BinaryOp.shr l r hl hr = shift_undefined heap BinaryOp.shr l r refl hl hr
fold_binary-undefined heap BinaryOp.div l r hl hr =
    division_undefined heap BinaryOp.div l r refl hl hr
fold_binary-undefined heap BinaryOp.modulo l r hl hr =
    division_undefined heap BinaryOp.modulo l r refl hl hr
fold_binary-undefined heap op l r hl hr =
    let k = usual-IsCommon heap l.type r.type hl.0 hr.0 in ground arith
