-- ===== src/Types/Expressions.antt =====
-- src/types/TypeQuery.cpp, TypeQuery.h and TypeConstraint.h: result types of expressions and sizes of
-- objects.
use trans.Prelude.{
  ℕ, ◌*◌, ◌^◌, ◌-◌, Bool, true, false, not, Option, none, some, ltb, ◌&&◌, ◌||◌, if◌then◌else◌,
}
use trans.Types.CType.{
  CType, void, pointer, array, Heap, unqualified, get_size, is_void, is_pointer, is_function,
  is_record, is_incomplete_record, is_incomplete_array,
}
use trans.Types.Query.{
  is_integral, pointer_element_stride, is_pointer_to_function, has_runtime_size, is_arithmetic_type,
  after_lvalue_conversion, usual_arithmetic_result, signed_long_type,
}
use trans.Types.Operator.{ArithmeticOp}

abbrev pub is_add : ArithmeticOp → Bool
is_add ArithmeticOp.add = true
is_add _ = false

abbrev pub is_sub : ArithmeticOp → Bool
is_sub ArithmeticOp.sub = true
is_sub _ = false

pub data PointerArithmeticForm : Type 0 where
  no_pointer ptr_plus_int int_plus_ptr ptr_minus_int ptr_minus_ptr invalid : PointerArithmeticForm

pub record PointerArithmeticInfo : Type 0 where
  pub form : PointerArithmeticForm
  pub result_type : CType
  pub stride_bytes : ℕ

abbrev pub no_info : PointerArithmeticInfo
no_info = record { form = no_pointer; result_type = void unqualified; stride_bytes = 1 }

unfoldable pub classify_pointer_arithmetic :
    Heap → CType → CType → ArithmeticOp → PointerArithmeticInfo
unfolding is_pointer is_integral pointer_element_stride
classify_pointer_arithmetic heap left right op =
    if not (is_add op) && not (is_sub op)
    then no_info
    else if not (is_pointer left) && not (is_pointer right)
    then no_info
    else if is_add op && (is_pointer left && is_integral right)
    then record {
      form = ptr_plus_int;
      result_type = left;
      stride_bytes = pointer_element_stride heap left;
    }
    else if is_add op && (is_integral left && is_pointer right)
    then record {
      form = int_plus_ptr;
      result_type = right;
      stride_bytes = pointer_element_stride heap right;
    }
    else if is_sub op && (is_pointer left && is_integral right)
    then record {
      form = ptr_minus_int;
      result_type = left;
      stride_bytes = pointer_element_stride heap left;
    }
    else if is_sub op && (is_pointer left && is_pointer right)
    then record {
      form = ptr_minus_ptr;
      result_type = signed_long_type;
      stride_bytes = pointer_element_stride heap left;
    }
    else record no_info { form = invalid }

unfoldable pub is_incomplete_object_type : Heap → CType → Bool
unfolding is_void is_function is_incomplete_record is_incomplete_array
is_incomplete_object_type heap t =
    is_void t || is_function t || is_incomplete_record heap t || is_incomplete_array t

-- The largest `int`.
abbrev pub int_max : ℕ
int_max = 2 ^ 31 - 1

unfoldable pub array_byte_size : Heap → CType → ℕ → Option ℕ
unfolding is_incomplete_object_type get_size
array_byte_size heap element count =
    if is_incomplete_object_type heap element
    then some 0
    else if ltb int_max (get_size heap element * count)
    then none
    else some (get_size heap element * count)

unfoldable pub sizeof_object : Heap → CType → Bool → Option ℕ
unfolding is_void is_function is_incomplete_object_type has_runtime_size get_size
sizeof_object heap t gnu =
    if is_void t
    then if gnu then some 1 else none
    else if is_function t
    then if gnu then some 1 else none
    else if is_incomplete_object_type heap t || has_runtime_size t
    then none
    else some (get_size heap t)

-- `none` where the pointer form is invalid or the operands are not arithmetic.
abbrev pub form_result : PointerArithmeticInfo → Option CType → Option CType
form_result info plain = elim info.form [
  | no_pointer ↦ plain
  | invalid ↦ none
  | _ ↦ some info.result_type
]

unfoldable pub arithmetic_expression_result : Heap → CType → CType → ArithmeticOp → Option CType
unfolding after_lvalue_conversion classify_pointer_arithmetic is_arithmetic_type
    usual_arithmetic_result
arithmetic_expression_result heap left_raw right_raw op =
    let left = after_lvalue_conversion left_raw in
    let right = after_lvalue_conversion right_raw in
    form_result (classify_pointer_arithmetic heap left right op) (
      if is_arithmetic_type left && is_arithmetic_type right
      then some (usual_arithmetic_result heap left right)
      else none)

abbrev pub points_to_void : CType → Bool
points_to_void (pointer q (void r)) = true
points_to_void _ = false

unfoldable pub conditional_result_type : Heap → CType → CType → Option CType
unfolding after_lvalue_conversion is_void is_arithmetic_type usual_arithmetic_result is_pointer
    is_pointer_to_function is_integral is_record
conditional_result_type heap true_raw false_raw =
    let left = after_lvalue_conversion true_raw in
    let right = after_lvalue_conversion false_raw in
    if is_void left && is_void right
    then some left
    else if is_arithmetic_type left && is_arithmetic_type right
    then some (usual_arithmetic_result heap left right)
    else if is_pointer left && is_pointer right
    then if is_pointer_to_function left && (is_pointer_to_function right || points_to_void right)
      then some left
      else if is_pointer_to_function right && (is_pointer_to_function left || points_to_void left)
      then some right
      else if points_to_void left
      then some left
      else if points_to_void right
      then some right
      else some left
    else if is_pointer left && is_integral right
    then some left
    else if is_pointer right && is_integral left
    then some right
    else if is_record left && is_record right
    then some left
    else none

pub record ArraySubscriptInfo : Type 0 where
  pub element_type : CType
  pub element_stride : ℕ
  pub base_is_array : Bool
  pub ok : Bool

unfoldable pub array_subscript_info : Heap → CType → ArraySubscriptInfo
unfolding get_size
array_subscript_info heap (array q t p) = record {
  element_type = t;
  element_stride = get_size heap t;
  base_is_array = true;
  ok = true;
}
array_subscript_info heap (pointer q t) = record {
  element_type = t;
  element_stride = get_size heap t;
  base_is_array = false;
  ok = true;
}
array_subscript_info heap _ = record {
  element_type = void unqualified;
  element_stride = 0;
  base_is_array = false;
  ok = false;
}
