-- ===== src/Types/IntegerConstant/Fold.antt =====
-- src/types/IntegerConstant.cpp: constants under the operators. Where the code computes on
-- `SignedBits` out of their range (the most negative value negated, or divided by -1), the cast of the
-- exact result stands for it.
use Prim.Native.Nat.{bit_and, bit_or, bit_xor}
use mathlib.Core.Option
use trans.Prelude.{
  ℕ, ◌+◌, ◌-◌, ◌*◌, ◌/◌, ◌%◌, ◌^◌, Bool, true, false, not, Option, none, some, ◌&&◌, ◌||◌, ltb, leb,
  ◌==◌, if◌then◌else◌, ℤ, pos, negsuc, ltb_ℤ, ◌-ℤ◌, ◌/ℤ◌, ◌%ℤ◌,
}
use trans.Types.Operator.{UnaryOp, BinaryOp}
use trans.Types.CType.{CType, Heap}
use trans.Types.Query.{is_integral, signed_integer_type, integer_promote, usual_arithmetic_result}
use trans.Types.IntegerConstant.{
  IntegerConstant, bits_mod, of_ℤ, of_bool, canonicalize, convert, is_zero_constant, as_unsigned,
  signed_integral, signed_value, width_bits,
}

abbrev pub fold_promoted : Heap → UnaryOp → IntegerConstant → Option IntegerConstant
fold_promoted heap UnaryOp.plus c = some c
fold_promoted heap UnaryOp.minus c =
    some (canonicalize heap (of_ℤ (pos 0 -ℤ signed_value c)) c.type)
fold_promoted heap UnaryOp.bit_not c = some (canonicalize heap (bits_mod - 1 - c.bits) c.type)
fold_promoted heap _ c = none

unfoldable pub fold_unary : Heap → UnaryOp → IntegerConstant → Option IntegerConstant
fold_unary heap UnaryOp.logical_not operand =
    some (canonicalize heap (of_bool (is_zero_constant heap operand)) signed_integer_type)
fold_unary heap op operand =
    if not (is_integral operand.type)
    then none
    else fold_promoted heap op (convert heap operand (integer_promote heap operand.type))

abbrev pub is_negative : ℤ → Bool
is_negative v = ltb_ℤ v (pos 0)

-- `>>` on `SignedBits` rounds downwards.
abbrev pub shift_right : ℤ → ℕ → ℤ
shift_right (pos n) count = pos (n / 2 ^ count)
shift_right (negsuc n) count = negsuc (n / 2 ^ count)

abbrev pub is_shl : BinaryOp → Bool
is_shl BinaryOp.shl = true
is_shl _ = false

abbrev pub is_shift : BinaryOp → Bool
is_shift BinaryOp.shl = true
is_shift BinaryOp.shr = true
is_shift _ = false

-- A shift of promoted operands.
unfoldable pub fold_shift :
    Heap → BinaryOp → IntegerConstant → IntegerConstant → Option IntegerConstant
fold_shift heap op left right =
    let width = width_bits heap left.type in
    let count = as_unsigned heap right in
    if width == 0
      || ((signed_integral right.type && is_negative (signed_value right)) || leb width count)
    then none
    else if is_shl op
    then some (canonicalize heap (left.bits * 2 ^ count % bits_mod) left.type)
    else if signed_integral left.type
    then some (canonicalize heap (of_ℤ (shift_right (signed_value left) count)) left.type)
    else some (canonicalize heap (as_unsigned heap left / 2 ^ count) left.type)

-- The result of `cmp`; its default case is not reached.
abbrev pub compared : BinaryOp → Bool → Bool → Bool → Bool → Bool
compared BinaryOp.lt uns signed_less unsigned_less eq = if uns then unsigned_less else signed_less
compared BinaryOp.gt uns signed_less unsigned_less eq =
    if uns then not unsigned_less && not eq else not signed_less && not eq
compared BinaryOp.le uns signed_less unsigned_less eq =
    if uns then unsigned_less || eq else signed_less || eq
compared BinaryOp.ge uns signed_less unsigned_less eq =
    if uns then not unsigned_less else not signed_less
compared BinaryOp.eq uns signed_less unsigned_less eq = eq
compared BinaryOp.ne uns signed_less unsigned_less eq = not eq
compared _ uns signed_less unsigned_less eq = false

abbrev pub is_comparison : BinaryOp → Bool
is_comparison BinaryOp.lt = true
is_comparison BinaryOp.gt = true
is_comparison BinaryOp.le = true
is_comparison BinaryOp.ge = true
is_comparison BinaryOp.eq = true
is_comparison BinaryOp.ne = true
is_comparison _ = false

unfoldable pub fold_comparison :
    Heap → BinaryOp → IntegerConstant → IntegerConstant → Bool → IntegerConstant
fold_comparison heap op left right uns =
    canonicalize heap
      (of_bool (
        compared op uns (ltb_ℤ (signed_value left) (signed_value right))
          (ltb (as_unsigned heap left) (as_unsigned heap right))
          (as_unsigned heap left == as_unsigned heap right)))
      signed_integer_type

-- The bits before `canonicalize`, of operands of one type.
unfoldable pub arithmetic_bits :
    Heap → BinaryOp → IntegerConstant → IntegerConstant → Bool → Option ℕ
arithmetic_bits heap BinaryOp.add left right uns = some ((left.bits + right.bits) % bits_mod)
arithmetic_bits heap BinaryOp.sub left right uns =
    some ((left.bits + (bits_mod - right.bits)) % bits_mod)
arithmetic_bits heap BinaryOp.mul left right uns = some (left.bits * right.bits % bits_mod)
arithmetic_bits heap BinaryOp.div left right uns =
    if is_zero_constant heap right
    then none
    else if uns
    then some (as_unsigned heap left / as_unsigned heap right)
    else some (of_ℤ (signed_value left /ℤ signed_value right))
arithmetic_bits heap BinaryOp.modulo left right uns =
    if is_zero_constant heap right
    then none
    else if uns
    then some (as_unsigned heap left % as_unsigned heap right)
    else some (of_ℤ (signed_value left %ℤ signed_value right))
arithmetic_bits heap BinaryOp.bit_and left right uns = some (bit_and left.bits right.bits)
arithmetic_bits heap BinaryOp.bit_or left right uns = some (bit_or left.bits right.bits)
arithmetic_bits heap BinaryOp.bit_xor left right uns = some (bit_xor left.bits right.bits)
arithmetic_bits heap _ left right uns = none

-- Two operands of the type of the usual conversions.
unfoldable pub fold_common :
    Heap → BinaryOp → IntegerConstant → IntegerConstant → CType → Option IntegerConstant
fold_common heap op left right common =
    let uns = not (signed_integral common) in
    if is_comparison op
    then some (fold_comparison heap op left right uns)
    else Option.map (λ bits. canonicalize heap bits common) (arithmetic_bits heap op left right uns)

abbrev pub fold_converted :
    Heap → BinaryOp → IntegerConstant → IntegerConstant → CType → Option IntegerConstant
fold_converted heap op left right common =
    fold_common heap op (convert heap left common) (convert heap right common) common

unfoldable pub fold_binary :
    Heap → BinaryOp → IntegerConstant → IntegerConstant → Option IntegerConstant
fold_binary heap BinaryOp.log_and left right = some (
    canonicalize heap
      (of_bool (not (is_zero_constant heap left) && not (is_zero_constant heap right)))
      signed_integer_type)
fold_binary heap BinaryOp.log_or left right = some (
    canonicalize heap
      (of_bool (not (is_zero_constant heap left) || not (is_zero_constant heap right)))
      signed_integer_type)
fold_binary heap op left right =
    if not (is_integral left.type) || not (is_integral right.type)
    then none
    else if is_shift op
    then fold_shift heap op (convert heap left (integer_promote heap left.type))
        (convert heap right (integer_promote heap right.type))
    else fold_converted heap op left right (usual_arithmetic_result heap left.type right.type)
