-- ===== src/Types/IntegerConstant.antt =====
-- src/types/IntegerConstant.h and IntegerConstant.cpp: integer constants, 128 bits and a type. `Bits` are a
-- number below 2 ^ 128. `value`: what the bits stand for. `exact`: folding against arithmetic on
-- integers. `ranked`: the types of literals and of enumerations. `literal`: their text.
pub mod Value
pub mod Ranked
pub mod Fold
pub mod Operand
pub mod Exact
pub mod Compare
pub mod Undefined
pub mod Choice
pub mod Literal
use trans.Prelude.{
  ℕ, ◌+◌, ◌-◌, ◌*◌, ◌/◌, ◌%◌, ◌^◌, Bool, true, false, not, Option, none, some, List, [], ◌∷◌, ◌&&◌,
  ◌||◌, ltb, leb, ◌==◌, if◌then◌else◌, ℤ, pos, negsuc, ltb_ℤ, leb_ℤ, ◌/ℤ◌, ◌%ℤ◌,
}
use trans.Types.Primitive.{
  PrimitiveKind, signed_integer, signed_long, unsigned_integer, unsigned_long, signed_int128,
  unsigned_int128,
}
use trans.Types.Operator.{UnaryOp, BinaryOp}
use trans.Types.CType.{CType, Heap, primitive, unqualified, get_size, is_pointer}
use trans.Types.Query.{
  is_integral, is_boolean, value_is_signed, signed_integer_type, signed_long_type, integer_promote,
  usual_arithmetic_result,
}

pub record IntegerConstant : Type 0 where
  pub bits : ℕ
  pub type : CType

abbrev pub bits_mod : ℕ
bits_mod = 2 ^ 128

abbrev pub half_mod : ℕ
half_mod = 2 ^ 127

-- The cast of a `SignedBits` to `Bits`.
abbrev pub of_ℤ : ℤ → ℕ
of_ℤ (pos n) = n % bits_mod
of_ℤ (negsuc n) = bits_mod - 1 - n % bits_mod

-- The cast of `Bits` to `SignedBits`.
abbrev pub signed_bits : ℕ → ℤ
signed_bits b = if ltb b half_mod then pos b else negsuc (bits_mod - 1 - b)

unfoldable pub width_bits : Heap → CType → ℕ
unfolding get_size
width_bits heap t = get_size heap t * 8

unfoldable pub mask_bits : ℕ → ℕ
mask_bits n = if leb 128 n then bits_mod - 1 else 2 ^ n - 1

unfoldable pub signed_integral : CType → Bool
unfolding is_integral value_is_signed
signed_integral t = is_integral t && value_is_signed t

-- `bits & maskBits(n)`, for a width below 128.
abbrev pub low_bits : ℕ → ℕ → ℕ
low_bits bits n = bits % 2 ^ n

unfoldable pub as_unsigned : Heap → IntegerConstant → ℕ
unfolding width_bits
as_unsigned heap c =
    let n = width_bits heap c.type in if ltb 0 n && ltb n 128 then low_bits c.bits n else c.bits

unfoldable pub fits_non_neg : Heap → ℕ → CType → Bool
unfolding width_bits mask_bits signed_integral
fits_non_neg heap value t =
    let n = width_bits heap t in
    if not (signed_integral t)
    then leb 128 n || leb value (mask_bits n)
    else if leb 128 n
    then leb value (half_mod - 1)
    else leb value (2 ^ (n - 1) - 1)

-- The bits of a value of width `n`: the sign bit is copied above it where the type is signed. The
-- bits above the width are clear before `|=`, which is a sum.
abbrev pub canonical_bits : ℕ → Bool → ℕ → ℕ
canonical_bits n is_signed bits =
    if n == 0 || leb 128 n
    then bits
    else (let low = low_bits bits n in
        if is_signed && (low / 2 ^ (n - 1)) % 2 == 1 then low + (bits_mod - 2 ^ n) else low)

unfoldable pub canonicalize : Heap → ℕ → CType → IntegerConstant
unfolding width_bits signed_integral
canonicalize heap bits dest = record {
  bits = canonical_bits (width_bits heap dest) (signed_integral dest) bits;
  type = dest;
}

abbrev pub of_bool : Bool → ℕ
of_bool true = 1
of_bool false = 0

unfoldable pub is_zero_constant : Heap → IntegerConstant → Bool
unfolding as_unsigned
is_zero_constant heap c = as_unsigned heap c == 0

abbrev pub integer_type : PrimitiveKind → CType
integer_type k = primitive unqualified k

unfoldable pub convert : Heap → IntegerConstant → CType → IntegerConstant
unfolding is_boolean is_zero_constant is_pointer canonicalize is_integral
convert heap src dest =
    if is_boolean dest
    then record { bits = of_bool (not (is_zero_constant heap src)); type = dest }
    else if is_pointer dest
    then record {
      bits = (canonicalize heap src.bits (integer_type unsigned_long)).bits;
      type = dest;
    }
    else if not (is_integral dest)
    then src
    else canonicalize heap src.bits dest

unfoldable pub signed_value : IntegerConstant → ℤ
signed_value c = signed_bits c.bits

unfoldable pub from_host_long : Heap → ℤ → IntegerConstant
unfolding canonicalize
from_host_long heap value = canonicalize heap (of_ℤ value) signed_long_type

unfoldable pub from_literal_bits : Heap → ℕ → CType → IntegerConstant
unfolding canonicalize
from_literal_bits heap bits dest = canonicalize heap bits dest

unfoldable pub to_host_long : Heap → IntegerConstant → ℤ
unfolding convert signed_value
to_host_long heap value = signed_value (convert heap value signed_long_type)
