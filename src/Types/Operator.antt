-- ===== src/Types/Operator.antt =====
-- src/types/Operator.h and Operator.cpp: the operators and their spellings.
pub mod RoundTrip
use Prim.Native.String.{String}
use text.Mathlib.Text.{◌==◌}
use trans.Prelude.{Option, none, some, if◌then◌else◌}

pub data UnaryOp : Type 0 where
  plus minus logical_not bit_not deref addr sizeof : UnaryOp

pub data IncDec : Type 0 where
  inc dec : IncDec

pub data ArithmeticOp : Type 0 where
  add sub mul div modulo : ArithmeticOp

pub data ShiftOp : Type 0 where
  shl shr : ShiftOp

pub data ComparisonOp : Type 0 where
  lt gt le ge eq ne : ComparisonOp

pub data BitwiseOp : Type 0 where
  bit_and bit_or bit_xor : BitwiseOp

pub data AssignOp : Type 0 where
  assign mul_assign div_assign mod_assign add_assign sub_assign shl_assign shr_assign and_assign
        xor_assign or_assign :
      AssignOp

pub data BinaryOp : Type 0 where
  add sub mul div modulo shl shr bit_and bit_or bit_xor lt gt le ge eq ne log_and log_or : BinaryOp

unfoldable pub unary_op_from_lexeme : String → Option UnaryOp
unary_op_from_lexeme lexeme =
    if lexeme == "+"
    then some UnaryOp.plus
    else if lexeme == "-"
    then some UnaryOp.minus
    else if lexeme == "!"
    then some UnaryOp.logical_not
    else if lexeme == "~"
    then some UnaryOp.bit_not
    else if lexeme == "*"
    then some UnaryOp.deref
    else if lexeme == "&"
    then some UnaryOp.addr
    else if lexeme == "sizeof"
    then some UnaryOp.sizeof
    else none

unfoldable pub inc_dec_from_lexeme : String → Option IncDec
inc_dec_from_lexeme lexeme =
    if lexeme == "++" then some IncDec.inc else if lexeme == "--" then some IncDec.dec else none

unfoldable pub arithmetic_op_from_lexeme : String → Option ArithmeticOp
arithmetic_op_from_lexeme lexeme =
    if lexeme == "+"
    then some ArithmeticOp.add
    else if lexeme == "-"
    then some ArithmeticOp.sub
    else if lexeme == "*"
    then some ArithmeticOp.mul
    else if lexeme == "/"
    then some ArithmeticOp.div
    else if lexeme == "%"
    then some ArithmeticOp.modulo
    else none

unfoldable pub shift_op_from_lexeme : String → Option ShiftOp
shift_op_from_lexeme lexeme =
    if lexeme == "<<" then some ShiftOp.shl else if lexeme == ">>" then some ShiftOp.shr else none

unfoldable pub comparison_op_from_lexeme : String → Option ComparisonOp
comparison_op_from_lexeme lexeme =
    if lexeme == "<"
    then some ComparisonOp.lt
    else if lexeme == ">"
    then some ComparisonOp.gt
    else if lexeme == "<="
    then some ComparisonOp.le
    else if lexeme == ">="
    then some ComparisonOp.ge
    else if lexeme == "=="
    then some ComparisonOp.eq
    else if lexeme == "!="
    then some ComparisonOp.ne
    else none

unfoldable pub bitwise_op_from_lexeme : String → Option BitwiseOp
bitwise_op_from_lexeme lexeme =
    if lexeme == "&"
    then some BitwiseOp.bit_and
    else if lexeme == "|"
    then some BitwiseOp.bit_or
    else if lexeme == "^"
    then some BitwiseOp.bit_xor
    else none

unfoldable pub assign_op_from_lexeme : String → Option AssignOp
assign_op_from_lexeme lexeme =
    if lexeme == "="
    then some AssignOp.assign
    else if lexeme == "*="
    then some AssignOp.mul_assign
    else if lexeme == "/="
    then some AssignOp.div_assign
    else if lexeme == "%="
    then some AssignOp.mod_assign
    else if lexeme == "+="
    then some AssignOp.add_assign
    else if lexeme == "-="
    then some AssignOp.sub_assign
    else if lexeme == "<<="
    then some AssignOp.shl_assign
    else if lexeme == ">>="
    then some AssignOp.shr_assign
    else if lexeme == "&="
    then some AssignOp.and_assign
    else if lexeme == "^="
    then some AssignOp.xor_assign
    else if lexeme == "|="
    then some AssignOp.or_assign
    else none

unfoldable pub spelling_unary_op : UnaryOp → String
spelling_unary_op UnaryOp.plus = "+"
spelling_unary_op UnaryOp.minus = "-"
spelling_unary_op UnaryOp.logical_not = "!"
spelling_unary_op UnaryOp.bit_not = "~"
spelling_unary_op UnaryOp.deref = "*"
spelling_unary_op UnaryOp.addr = "&"
spelling_unary_op UnaryOp.sizeof = "sizeof"

unfoldable pub spelling_inc_dec : IncDec → String
spelling_inc_dec IncDec.inc = "++"
spelling_inc_dec IncDec.dec = "--"

unfoldable pub spelling_binary_op : BinaryOp → String
spelling_binary_op BinaryOp.add = "+"
spelling_binary_op BinaryOp.sub = "-"
spelling_binary_op BinaryOp.mul = "*"
spelling_binary_op BinaryOp.div = "/"
spelling_binary_op BinaryOp.modulo = "%"
spelling_binary_op BinaryOp.shl = "<<"
spelling_binary_op BinaryOp.shr = ">>"
spelling_binary_op BinaryOp.bit_and = "&"
spelling_binary_op BinaryOp.bit_or = "|"
spelling_binary_op BinaryOp.bit_xor = "^"
spelling_binary_op BinaryOp.lt = "<"
spelling_binary_op BinaryOp.gt = ">"
spelling_binary_op BinaryOp.le = "<="
spelling_binary_op BinaryOp.ge = ">="
spelling_binary_op BinaryOp.eq = "=="
spelling_binary_op BinaryOp.ne = "!="
spelling_binary_op BinaryOp.log_and = "&&"
spelling_binary_op BinaryOp.log_or = "||"

unfoldable pub spelling_assign_op : AssignOp → String
spelling_assign_op AssignOp.assign = "="
spelling_assign_op AssignOp.mul_assign = "*="
spelling_assign_op AssignOp.div_assign = "/="
spelling_assign_op AssignOp.mod_assign = "%="
spelling_assign_op AssignOp.add_assign = "+="
spelling_assign_op AssignOp.sub_assign = "-="
spelling_assign_op AssignOp.shl_assign = "<<="
spelling_assign_op AssignOp.shr_assign = ">>="
spelling_assign_op AssignOp.and_assign = "&="
spelling_assign_op AssignOp.xor_assign = "^="
spelling_assign_op AssignOp.or_assign = "|="

unfoldable pub as_binary_arithmetic_op : ArithmeticOp → BinaryOp
as_binary_arithmetic_op ArithmeticOp.add = BinaryOp.add
as_binary_arithmetic_op ArithmeticOp.sub = BinaryOp.sub
as_binary_arithmetic_op ArithmeticOp.mul = BinaryOp.mul
as_binary_arithmetic_op ArithmeticOp.div = BinaryOp.div
as_binary_arithmetic_op ArithmeticOp.modulo = BinaryOp.modulo

unfoldable pub as_binary_shift_op : ShiftOp → BinaryOp
as_binary_shift_op ShiftOp.shl = BinaryOp.shl
as_binary_shift_op ShiftOp.shr = BinaryOp.shr

unfoldable pub as_binary_comparison_op : ComparisonOp → BinaryOp
as_binary_comparison_op ComparisonOp.lt = BinaryOp.lt
as_binary_comparison_op ComparisonOp.gt = BinaryOp.gt
as_binary_comparison_op ComparisonOp.le = BinaryOp.le
as_binary_comparison_op ComparisonOp.ge = BinaryOp.ge
as_binary_comparison_op ComparisonOp.eq = BinaryOp.eq
as_binary_comparison_op ComparisonOp.ne = BinaryOp.ne

unfoldable pub as_binary_bitwise_op : BitwiseOp → BinaryOp
as_binary_bitwise_op BitwiseOp.bit_and = BinaryOp.bit_and
as_binary_bitwise_op BitwiseOp.bit_or = BinaryOp.bit_or
as_binary_bitwise_op BitwiseOp.bit_xor = BinaryOp.bit_xor
