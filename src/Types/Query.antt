-- ===== src/Types/Query.antt =====
-- src/types/TypeQuery.h and TypeQuery.cpp: predicates on types, the conversions of C and the result
-- types of expressions. `arithmetic`: the types that the promotions work on.
pub mod Arithmetic
use trans.Prelude.{
  ℕ, suc, ◌+◌, ◌*◌, Bool, true, false, not, Option, none, some, List, [], ◌∷◌, ltb, leb, ◌==◌, ◌&&◌,
  ◌||◌, if◌then◌else◌,
}
use trans.Types.Primitive.{
  PrimitiveKind, unsigned_integer, signed_integer, signed_long, float, double, long_double,
  complex_float, complex_double, complex_long_double, kind_size, kind_is_signed, kind_is_floating,
  kind_is_complex, kind_is_boolean, kind_is_character, ◌=k◌,
}
use trans.Types.CType.{
  CType, void, primitive, pointer, function, array, record_body, Heap, BitField, Member,
  unqualified, with_qualifiers, without_top_level_qualifiers, get_size, is_void, is_primitive,
  is_pointer, is_function, is_array, is_record, is_incomplete_record, is_transparent_union,
  get_members, member_count, is_complete_record,
}

unfoldable pub is_integral : CType → Bool
unfolding kind_is_floating kind_is_complex
is_integral (primitive q k) = not (kind_is_floating k) && not (kind_is_complex k)
is_integral _ = false

-- On a type that is no pointer the source ends the compiler; callers test first.
unfoldable pub pointer_element_stride : Heap → CType → ℕ
unfolding get_size
pointer_element_stride heap (pointer q t) =
    let size = get_size heap t in if ltb 0 size then size else 1
pointer_element_stride heap _ = 1

unfoldable pub is_pointer_to_function : CType → Bool
unfolding is_function
is_pointer_to_function (pointer q t) = is_function t
is_pointer_to_function _ = false

unfoldable pub has_runtime_size : CType → Bool
has_runtime_size (array q t p) = if p.is_variable then true else has_runtime_size t
has_runtime_size _ = false

unfoldable pub is_tentative_record : Heap → CType → Bool
unfolding is_record is_complete_record member_count
is_tentative_record heap t =
    is_record t && not (is_complete_record heap t) && ltb 0 (member_count heap t)

-- A missing bound counts as unspecified.
abbrev pub bound_unspecified : Option Bool → Bool
bound_unspecified none = true
bound_unspecified (some unspecified) = unspecified

unfoldable pub has_unspecified_vla_size : CType → Bool
has_unspecified_vla_size (array q t p) =
    if p.is_variable
    then bound_unspecified p.bound || has_unspecified_vla_size t
    else has_unspecified_vla_size t
has_unspecified_vla_size _ = false

unfoldable pub has_computable_runtime_size : CType → Bool
unfolding has_runtime_size has_unspecified_vla_size
has_computable_runtime_size t = has_runtime_size t && not (has_unspecified_vla_size t)

unfoldable pub is_floating : CType → Bool
unfolding kind_is_floating
is_floating (primitive q k) = kind_is_floating k
is_floating _ = false

abbrev pub is_kind : PrimitiveKind → CType → Bool
is_kind k (primitive q j) = j =k k
is_kind k _ = false

unfoldable pub is_float : CType → Bool
is_float t = is_kind float t

unfoldable pub is_double : CType → Bool
is_double t = is_kind double t

unfoldable pub is_long_double : CType → Bool
is_long_double t = is_kind long_double t

unfoldable pub is_complex : CType → Bool
unfolding kind_is_complex
is_complex (primitive q k) = kind_is_complex k
is_complex _ = false

abbrev pub signed_integer_type : CType
signed_integer_type = primitive unqualified signed_integer

abbrev pub signed_long_type : CType
signed_long_type = primitive unqualified signed_long

unfoldable pub corresponding_real : CType → CType
corresponding_real t =
    if is_kind complex_float t
    then primitive unqualified float
    else if is_kind complex_double t
    then primitive unqualified double
    else if is_kind complex_long_double t
    then primitive unqualified long_double
    else t

unfoldable pub complex_of_real : CType → CType
unfolding is_long_double is_double
complex_of_real real =
    if is_long_double real
    then primitive unqualified complex_long_double
    else if is_double real
    then primitive unqualified complex_double
    else primitive unqualified complex_float

unfoldable pub is_boolean : CType → Bool
unfolding kind_is_boolean
is_boolean (primitive q k) = kind_is_boolean k
is_boolean _ = false

unfoldable pub is_character : CType → Bool
unfolding kind_is_character
is_character (primitive q k) = kind_is_character k
is_character _ = false

unfoldable pub is_real_type : CType → Bool
unfolding is_integral is_floating
is_real_type t = is_integral t || is_floating t

unfoldable pub is_arithmetic_type : CType → Bool
unfolding is_real_type is_complex
is_arithmetic_type t = is_real_type t || is_complex t

unfoldable pub value_is_signed : CType → Bool
unfolding is_integral kind_is_signed
value_is_signed (primitive q k) = if is_integral (primitive q k) then kind_is_signed k else true
value_is_signed _ = true

unfoldable pub after_lvalue_conversion : CType → CType
after_lvalue_conversion (array q t p) = pointer unqualified t
after_lvalue_conversion (function q t a v) = pointer unqualified (function q t a v)
after_lvalue_conversion t = without_top_level_qualifiers t

unfoldable pub adjusted_parameter_type : CType → CType
adjusted_parameter_type (array q t p) = pointer unqualified t
adjusted_parameter_type (function q t a v) = pointer unqualified (function q t a v)
adjusted_parameter_type t = t

unfoldable pub integer_promote : Heap → CType → CType
unfolding is_integral get_size
integer_promote heap t =
    if not (is_integral t)
    then t
    else if ltb 0 (get_size heap t) && ltb (get_size heap t) 4
    then signed_integer_type
    else t

unfoldable pub promote_bit_field : Heap → BitField → CType → CType
unfolding get_size
promote_bit_field heap bits declared =
    if ltb (get_size heap signed_integer_type) (get_size heap declared)
    then declared
    else (let int_bits = get_size heap signed_integer_type * 8 in
        let fits = if bits.is_signed then leb bits.width int_bits else ltb bits.width int_bits in
        if fits then signed_integer_type else primitive unqualified unsigned_integer)

unfoldable pub default_arg_promote : Heap → CType → CType
unfolding is_float integer_promote
default_arg_promote heap t =
    if is_float t then primitive unqualified double else integer_promote heap t

-- `usualArithmeticResult` where neither side is complex: the call that the complex case makes on
-- the corresponding reals, which are not complex.
unfoldable pub usual_real_result : Heap → CType → CType → CType
unfolding is_floating is_long_double is_double integer_promote is_integral value_is_signed get_size
usual_real_result heap left right =
    if is_floating left || is_floating right
    then if is_long_double left || is_long_double right
      then primitive unqualified long_double
      else if is_double left || is_double right
      then primitive unqualified double
      else primitive unqualified float
    else (let left' = integer_promote heap left in
        let right' = integer_promote heap right in
        if ltb (get_size heap left') (get_size heap right')
        then right'
        else if get_size heap right' == get_size heap left'
            && (is_integral right'
                && (is_integral left' && (not (value_is_signed right') && value_is_signed left')))
        then right'
        else left')

unfoldable pub usual_arithmetic_result : Heap → CType → CType → CType
unfolding is_complex complex_of_real corresponding_real usual_real_result
usual_arithmetic_result heap left right =
    if is_complex left || is_complex right
    then complex_of_real
        (usual_real_result heap (corresponding_real left) (corresponding_real right))
    else usual_real_result heap left right
