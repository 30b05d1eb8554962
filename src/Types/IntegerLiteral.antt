-- ===== src/Types/IntegerLiteral.antt =====
-- src/util/IntegerLiteral.h: integer literals of C, read from the bytes of a token. `number`: the digits
-- against the number that they denote.
pub mod Number
pub mod Accepts
use trans.Prelude.{
  ℕ, ◌+◌, ◌-◌, ◌*◌, ◌/◌, ◌%◌, ◌^◌, Bool, true, false, Option, none, some, List, [], ◌∷◌, ◌&&◌, ◌||◌,
  ltb, leb, ◌==◌, if◌then◌else◌,
}

pub record IntegerLiteral : Type 0 where
  pub value : ℕ
  pub base : ℕ
  pub uns : Bool
  pub lng : Bool
  pub too_wide : Bool

-- `none` for -1.
unfoldable pub integer_digit_value : ℕ → ℕ → Option ℕ
integer_digit_value c base =
    let d =
      (if leb b'0' c && leb c b'9'
        then some (c - b'0')
        else if leb b'a' c && leb c b'f'
        then some (c - b'a' + 10)
        else if leb b'A' c && leb c b'F'
        then some (c - b'A' + 10)
        else none) in
    elim d [ none ↦ none | some n ↦ if ltb n base then some n else none ]

-- The base, and the text after the prefix.
unfoldable pub literal_base : List ℕ → ℕ × List ℕ
literal_base (a ∷ b ∷ rest) =
    if a == b'0' && (b == b'x' || b == b'X')
    then (16, rest)
    else if a == b'0' && (leb b'0' b && leb b b'7')
    then (8, b ∷ rest)
    else (10, a ∷ b ∷ rest)
literal_base text = (10, text)

-- The variables of the loop over the digits.
pub record Digits : Type 0 where
  pub v : ℕ
  pub any : Bool
  pub too_wide : Bool

abbrev pub wide_mod : ℕ
wide_mod = 2 ^ 128

abbrev pub add_digit : ℕ → Digits → ℕ → Digits
add_digit radix s digit = record {
  v = (s.v * radix + digit) % wide_mod;
  any = true;
  too_wide =
      if ltb ((wide_mod - 1) / radix) s.v
        || (s.v == (wide_mod - 1) / radix && ltb ((wide_mod - 1) % radix) digit)
      then true
      else s.too_wide;
}

unfoldable pub scan_digits : ℕ → List ℕ → Digits → Digits × List ℕ
scan_digits radix [] s = (s, [])
scan_digits radix (c ∷ rest) s = elim (integer_digit_value c radix) [
  | none ↦ (s, c ∷ rest)
  | some d ↦ scan_digits radix rest (add_digit radix s d)
]

-- The suffix, whether it has a `u` and an `l`.
unfoldable pub scan_suffix : List ℕ → Bool → Bool → Option (Bool × Bool)
scan_suffix [] u l = some (u, l)
scan_suffix (c ∷ rest) u l =
    let unsigned_suffix = scan_suffix rest true l in
    let long_suffix = scan_suffix rest u true in
    if c == b'u' || c == b'U'
    then unsigned_suffix
    else if c == b'l' || c == b'L'
    then long_suffix
    else none

abbrev pub literal_of : ℕ → Digits → Option (Bool × Bool) → Option IntegerLiteral
literal_of base s none = none
literal_of base s (some (u, l)) =
    some (record { value = s.v; base = base; uns = u; lng = l; too_wide = s.too_wide })

abbrev pub after_digits : ℕ → Digits × List ℕ → Option IntegerLiteral
after_digits base (s, rest) =
    if s.any then literal_of base s (scan_suffix rest false false) else none

abbrev pub no_digits : Digits
no_digits = record { v = 0; any = false; too_wide = false }

abbrev pub literal_text : ℕ × List ℕ → Option IntegerLiteral
literal_text (base, text) = after_digits base (scan_digits base text no_digits)

-- A token that starts with a quote is a character constant.
unfoldable pub parse_integer_literal : List ℕ → Option IntegerLiteral
parse_integer_literal [] = none
parse_integer_literal (c ∷ rest) =
    if c == b'\'' then none else literal_text (literal_base (c ∷ rest))
