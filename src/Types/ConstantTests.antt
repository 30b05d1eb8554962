-- ===== src/Types/ConstantTests.antt =====
-- The theorems about integer constants, literals, operators and compatible types at concrete inputs.
use trans.Prelude.{
  ◌-◌, ◌≡◌, ◌↔◌, refl, true, false, none, some, [], ◌∷◌, pos, negsuc, arith, ◌+ℤ◌, ◌/ℤ◌,
}
use trans.Types.Primitive.{PrimitiveKind, unsigned_integer}
use trans.Types.CType.{CType, array, unqualified, Heap}
use trans.Types.Query.{is_integral, signed_integer_type, usual_arithmetic_result}
use trans.Types.Compatibility.{compatible_with, same_qualified_type}
use trans.Types.Compatibility.Laws.{compatible_with_laws}
use trans.Types.Operator.{
  BinaryOp, UnaryOp, IncDec, ArithmeticOp, ShiftOp, ComparisonOp, BitwiseOp, AssignOp,
  unary_op_from_lexeme, inc_dec_from_lexeme, arithmetic_op_from_lexeme, shift_op_from_lexeme,
  comparison_op_from_lexeme, bitwise_op_from_lexeme, assign_op_from_lexeme, spelling_unary_op,
  spelling_inc_dec, spelling_binary_op, spelling_assign_op, as_binary_arithmetic_op,
  as_binary_shift_op, as_binary_comparison_op, as_binary_bitwise_op,
}
use trans.Types.Operator.RoundTrip.{operators_round_trip}
use trans.Types.IntegerConstant.{
  IntegerConstant, integer_type, bits_mod, of_ℤ, signed_bits, of_bool, width_bits, signed_integral,
  convert, canonicalize,
}
use trans.Types.IntegerConstant.Fold.{fold_binary}
use trans.Types.IntegerConstant.Exact.{fold_binary_exact, common_type, operand_value}
use trans.Types.IntegerConstant.Compare.{fold_binary_compare, holds}
use trans.Types.IntegerConstant.Undefined.{fold_binary-undefined, is_none, undefined}
use trans.Types.IntegerConstant.Ranked.{ranked_literal, next_enumerator}
use trans.Types.IntegerConstant.Literal.{ranked_literal_lem, IsChosen}
use trans.Types.IntegerConstant.Choice.{next_enumerator_lem}
use trans.Types.IntegerConstant.Operand.{value}
use trans.Types.IntegerLiteral.{parse_integer_literal, literal_base, integer_digit_value}
use trans.Types.IntegerLiteral.Accepts.{parse_integer_literal-accepts}

abbrev no_records : Heap
no_records i = record {
  members = [];
  size = 0;
  complete = false;
  is_union = false;
  transparent_union = false;
  packed = false;
}

abbrev seven : IntegerConstant
seven = record { bits = 7; type = signed_integer_type }

-- -2, whose bits are sign-extended.
abbrev minus_two : IntegerConstant
minus_two = record { bits = bits_mod - 2; type = signed_integer_type }

fold_binary_exact_example :
    (fold_binary no_records BinaryOp.div seven minus_two
      ≡ some (record { bits = of_ℤ (negsuc 2); type = common_type no_records seven minus_two }))
    × (value (record { bits = of_ℤ (negsuc 2); type = common_type no_records seven minus_two })
        ≡ negsuc 2)
unfolding usual_arithmetic_result is_integral convert canonicalize ◌/ℤ◌ width_bits signed_integral
fold_binary_exact_example =
    fold_binary_exact no_records BinaryOp.div seven minus_two (negsuc 2) (refl, omega arith)
      (refl, omega arith) refl (omega arith)

-- 7 < -2 does not hold.
fold_binary_compare_example :
    fold_binary no_records BinaryOp.lt seven minus_two
    ≡ some (record {
      bits = of_bool (
          holds BinaryOp.lt
            (operand_value no_records seven (common_type no_records seven minus_two))
            (operand_value no_records minus_two (common_type no_records seven minus_two)));
      type = signed_integer_type;
    })
unfolding is_integral
fold_binary_compare_example =
    fold_binary_compare no_records BinaryOp.lt seven minus_two (refl, omega arith)
      (refl, omega arith) refl

fold_binary-undefined_example :
    is_none (fold_binary no_records BinaryOp.shl seven minus_two)
    ≡ undefined no_records BinaryOp.shl seven minus_two
unfolding is_integral
fold_binary-undefined_example =
    fold_binary-undefined no_records BinaryOp.shl seven minus_two (refl, omega arith)
      (refl, omega arith)

-- 0xFFFFFFFF is an `unsigned int`.
ranked_literal_lem_example :
    (k : PrimitiveKind) × IsChosen 4294967295 16 false false k
    × (ranked_literal no_records 4294967295 16 false false
        ≡ record { bits = 4294967295; type = integer_type k })
ranked_literal_lem_example = ranked_literal_lem no_records 4294967295 16 false false (omega arith)

-- After an enumerator with the value 4294967295.
abbrev widest_unsigned : IntegerConstant
widest_unsigned = record { bits = 4294967295; type = integer_type unsigned_integer }

next_enumerator_lem_example :
    value (next_enumerator no_records widest_unsigned) ≡ signed_bits 4294967295 +ℤ pos 1
next_enumerator_lem_example =
    next_enumerator_lem no_records widest_unsigned (omega arith) (λ e. omega arith)

-- 0x1FuL
parse_integer_literal-accepts_example :
    parse_integer_literal (b'0' ∷ b'x' ∷ b'1' ∷ b'F' ∷ b'u' ∷ b'L' ∷ [])
    ≡ some (record { value = 31; base = 16; uns = true; lng = true; too_wide = false })
unfolding literal_base integer_digit_value
parse_integer_literal-accepts_example =
    parse_integer_literal-accepts b'0' (b'x' ∷ b'1' ∷ b'F' ∷ b'u' ∷ b'L' ∷ []) 16 b'1' (b'F' ∷ [])
      (b'u' ∷ b'L' ∷ []) (omega arith) refl ((λ e. cc), ((λ e. cc), tt)) (refl, (refl, tt))

operators_round_trip_example :
    ((unary_op_from_lexeme "~" ≡ some UnaryOp.bit_not) ↔ ("~" ≡ spelling_unary_op UnaryOp.bit_not))
    × ((inc_dec_from_lexeme "~" ≡ some IncDec.inc) ↔ ("~" ≡ spelling_inc_dec IncDec.inc))
    × ((arithmetic_op_from_lexeme "~" ≡ some ArithmeticOp.add)
        ↔ ("~" ≡ spelling_binary_op (as_binary_arithmetic_op ArithmeticOp.add)))
    × ((shift_op_from_lexeme "~" ≡ some ShiftOp.shl)
        ↔ ("~" ≡ spelling_binary_op (as_binary_shift_op ShiftOp.shl)))
    × ((comparison_op_from_lexeme "~" ≡ some ComparisonOp.lt)
        ↔ ("~" ≡ spelling_binary_op (as_binary_comparison_op ComparisonOp.lt)))
    × ((bitwise_op_from_lexeme "~" ≡ some BitwiseOp.bit_or)
        ↔ ("~" ≡ spelling_binary_op (as_binary_bitwise_op BitwiseOp.bit_or)))
    × ((assign_op_from_lexeme "~" ≡ some AssignOp.or_assign)
        ↔ ("~" ≡ spelling_assign_op AssignOp.or_assign))
operators_round_trip_example =
    operators_round_trip "~" UnaryOp.bit_not IncDec.inc ArithmeticOp.add ShiftOp.shl ComparisonOp.lt
      BitwiseOp.bit_or AssignOp.or_assign

-- int[3] and int[].
abbrev three_ints : CType
three_ints =
    array unqualified signed_integer_type
      (record { count = 3; size_bytes = 12; complete = true; is_variable = false; bound = none })

abbrev open_ints : CType
open_ints =
    array unqualified signed_integer_type
      (record { count = 0; size_bytes = 0; complete = false; is_variable = false; bound = none })

compatible_with_laws_example :
    (compatible_with three_ints three_ints ≡ true)
    × (compatible_with three_ints open_ints ≡ compatible_with open_ints three_ints)
    × (same_qualified_type three_ints open_ints ≡ true
        → compatible_with three_ints open_ints ≡ true)
compatible_with_laws_example = compatible_with_laws three_ints open_ints
