-- ===== src/Types/IntegerConstant/Ranked.antt =====
-- src/types/IntegerConstant.cpp: the types of literals and of enumerations.
use trans.Prelude.{
  ℕ, ◌+◌, ◌-◌, ◌%◌, ◌^◌, Bool, List, [], ◌∷◌, ◌&&◌, ◌||◌, ◌==◌, if◌then◌else◌, ℤ, pos, negsuc,
  leb_ℤ,
}
use trans.Types.Primitive.{
  PrimitiveKind, signed_integer, signed_long, unsigned_integer, unsigned_long, signed_int128,
  unsigned_int128,
}
use trans.Types.CType.{CType, Heap}
use trans.Types.Query.{signed_integer_type, signed_long_type}
use trans.Types.IntegerConstant.{
  IntegerConstant, integer_type, bits_mod, signed_bits, fits_non_neg, canonicalize,
  from_literal_bits,
}

-- The types that the code tries for a literal, in its order.
unfoldable pub literal_kinds : ℕ → Bool → Bool → List PrimitiveKind
literal_kinds base uns lng =
    let hex_or_oct = base == 8 || base == 16 in
    if lng && uns
    then unsigned_long ∷ unsigned_int128 ∷ []
    else if lng
    then signed_long
      ∷ (if hex_or_oct
          then unsigned_long ∷ signed_int128 ∷ unsigned_int128 ∷ []
          else signed_int128 ∷ [])
    else if uns
    then unsigned_integer ∷ unsigned_long ∷ unsigned_int128 ∷ []
    else if hex_or_oct
    then signed_integer ∷ unsigned_integer ∷ signed_long ∷ unsigned_long ∷ signed_int128
      ∷ unsigned_int128 ∷ []
    else signed_integer ∷ signed_long ∷ signed_int128 ∷ []

-- The first type that fits, else the last one.
abbrev pub first_fitting : Heap → ℕ → PrimitiveKind → List PrimitiveKind → PrimitiveKind
first_fitting heap value last [] = last
first_fitting heap value last (k ∷ ks) =
    if fits_non_neg heap value (integer_type k) then k else first_fitting heap value k ks

unfoldable pub ranked_literal : Heap → ℕ → ℕ → Bool → Bool → IntegerConstant
unfolding canonicalize literal_kinds fits_non_neg
ranked_literal heap value base uns lng =
    canonicalize heap value
      (integer_type (first_fitting heap value signed_integer (literal_kinds base uns lng)))

abbrev pub covers : ℤ → ℤ → ℤ → ℤ → Bool
covers low high min max = leb_ℤ low min && leb_ℤ max high

unfoldable pub enum_underlying_type : ℤ → ℤ → CType
enum_underlying_type min max =
    if covers (negsuc (2 ^ 31 - 1)) (pos (2 ^ 31 - 1)) min max
    then signed_integer_type
    else if covers (pos 0) (pos (2 ^ 32 - 1)) min max
    then integer_type unsigned_integer
    else if covers (negsuc (2 ^ 63 - 1)) (pos (2 ^ 63 - 1)) min max
    then signed_long_type
    else if covers (pos 0) (pos (2 ^ 64 - 1)) min max
    then integer_type unsigned_long
    else if leb_ℤ (pos 0) min
    then integer_type unsigned_int128
    else integer_type signed_int128

unfoldable pub next_enumerator : Heap → IntegerConstant → IntegerConstant
next_enumerator heap value =
    let bits = (value.bits + 1) % bits_mod in
    let v = signed_bits bits in from_literal_bits heap bits (enum_underlying_type v v)
