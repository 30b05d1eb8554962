-- ===== src/Types/Primitive.antt =====
-- src/types/Primitive.h and Primitive.cpp: the arithmetic types. A `Primitive` is its kind, so the
-- static constructors are the constructors of the enumeration.
use trans.Prelude.{ℕ, Bool, true, false, ◌==◌, ◌||◌}

pub data PrimitiveKind : Type 0 where
  signed_char unsigned_char signed_short unsigned_short signed_integer unsigned_integer :
      PrimitiveKind
  signed_long unsigned_long signed_int128 unsigned_int128 boolean : PrimitiveKind
  float double long_double complex_float complex_double complex_long_double : PrimitiveKind

pub PrimitiveKind-discrete : Discrete PrimitiveKind
PrimitiveKind-discrete = hlevel

-- `==` on the enumeration, by the places of its members.
abbrev pub place : PrimitiveKind → ℕ
place signed_char = 0
place unsigned_char = 1
place signed_short = 2
place unsigned_short = 3
place signed_integer = 4
place unsigned_integer = 5
place signed_long = 6
place unsigned_long = 7
place signed_int128 = 8
place unsigned_int128 = 9
place boolean = 10
place float = 11
place double = 12
place long_double = 13
place complex_float = 14
place complex_double = 15
place complex_long_double = 16

infix 50 ◌=k◌
abbrev pub ◌=k◌ : PrimitiveKind → PrimitiveKind → Bool
a =k b = place a == place b

unfoldable pub kind_size : PrimitiveKind → ℕ
kind_size signed_char = 1
kind_size unsigned_char = 1
kind_size boolean = 1
kind_size signed_short = 2
kind_size unsigned_short = 2
kind_size signed_integer = 4
kind_size unsigned_integer = 4
kind_size float = 4
kind_size signed_long = 8
kind_size unsigned_long = 8
kind_size double = 8
kind_size complex_float = 8
kind_size signed_int128 = 16
kind_size unsigned_int128 = 16
kind_size long_double = 16
kind_size complex_double = 16
kind_size complex_long_double = 32

unfoldable pub kind_alignment : PrimitiveKind → ℕ
unfolding kind_size
kind_alignment complex_float = 4
kind_alignment complex_double = 8
kind_alignment complex_long_double = 16
kind_alignment k = kind_size k

unfoldable pub kind_is_signed : PrimitiveKind → Bool
kind_is_signed unsigned_char = false
kind_is_signed unsigned_short = false
kind_is_signed unsigned_integer = false
kind_is_signed unsigned_long = false
kind_is_signed unsigned_int128 = false
kind_is_signed boolean = false
kind_is_signed _ = true

unfoldable pub kind_is_floating : PrimitiveKind → Bool
kind_is_floating k = k =k float || k =k double || k =k long_double

unfoldable pub kind_is_complex : PrimitiveKind → Bool
kind_is_complex k = k =k complex_float || k =k complex_double || k =k complex_long_double

unfoldable pub kind_is_boolean : PrimitiveKind → Bool
kind_is_boolean k = k =k boolean

unfoldable pub kind_is_character : PrimitiveKind → Bool
kind_is_character k = k =k signed_char || k =k unsigned_char
