-- ===== src/Types/Query/Arithmetic.antt =====
-- src/types/TypeQuery.cpp: laws of the promotions and of the usual arithmetic conversions.
use trans.Prelude.{ℕ, ◌≤◌, ◌≡◌, true, false, arith, Bool, ◌||◌, if◌then◌else◌, ltb, ◌==◌}
use trans.Types.Primitive.{
  PrimitiveKind, signed_integer, unsigned_integer, signed_long, unsigned_long, signed_int128,
  unsigned_int128, float, double, long_double, complex_float, complex_double, complex_long_double,
  kind_is_complex,
}
use trans.Types.CType.{CType, Heap, primitive, unqualified, get_size}
use trans.Types.Query.{is_integral, integer_promote, usual_arithmetic_result}

-- The real types that the usual conversions lead to, in the order of C: the integer types from
-- `int` on by rank, unsigned after signed, then the floating types. A narrower integer type has
-- the rank of `int`, a complex type that of its real type.
abbrev pub conversion_rank : PrimitiveKind → ℕ
conversion_rank unsigned_integer = 1
conversion_rank signed_long = 2
conversion_rank unsigned_long = 3
conversion_rank signed_int128 = 4
conversion_rank unsigned_int128 = 5
conversion_rank float = 6
conversion_rank double = 7
conversion_rank long_double = 8
conversion_rank complex_float = 6
conversion_rank complex_double = 7
conversion_rank complex_long_double = 8
conversion_rank _ = 0

-- The type of a rank, complex or not.
abbrev pub real_kind : ℕ → PrimitiveKind
real_kind r =
    if r == 0
    then signed_integer
    else if r == 1
    then unsigned_integer
    else if r == 2
    then signed_long
    else if r == 3
    then unsigned_long
    else if r == 4
    then signed_int128
    else if r == 5
    then unsigned_int128
    else if r == 6
    then float
    else if r == 7
    then double
    else long_double

abbrev pub complex_kind : ℕ → PrimitiveKind
complex_kind r =
    if r == 8 then complex_long_double else if r == 7 then complex_double else complex_float

abbrev pub conversion_kind : Bool → ℕ → PrimitiveKind
conversion_kind true r = complex_kind r
conversion_kind false r = real_kind r

abbrev pub larger : ℕ → ℕ → ℕ
larger a b = if ltb a b then b else a

-- For operands of arithmetic type without qualifiers, the result of the usual arithmetic
-- conversions is the type of the larger of the two ranks, and complex if one of them is.
pub usual_arithmetic_lem :
    (heap : Heap) (j k : PrimitiveKind)
    → usual_arithmetic_result heap (primitive unqualified j) (primitive unqualified k)
      ≡ primitive unqualified (
          conversion_kind
            (kind_is_complex j || kind_is_complex k)
            (larger (conversion_rank j) (conversion_rank k)))
unfolding usual_arithmetic_result kind_is_complex
usual_arithmetic_lem heap j k = ground arith

-- Promotion is idempotent, never narrows an integer type, and makes it at least as wide as `int`.
pub integer_promote_lem :
    (heap : Heap) (t : CType)
    → is_integral t ≡ true
    → (integer_promote heap (integer_promote heap t) ≡ integer_promote heap t)
      × (get_size heap t ≤ get_size heap (integer_promote heap t))
      × (4 ≤ get_size heap (integer_promote heap t))
unfolding integer_promote is_integral get_size
integer_promote_lem heap t h = ground arith
