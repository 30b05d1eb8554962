-- ===== src/Types/IntegerLiteral/Number.antt =====
-- src/util/IntegerLiteral.h: the value and the overflow flag against the number of the digits.
use trans.Prelude.{
  ℕ, ◌+◌, ◌*◌, ◌%◌, ◌<◌, ◌≡◌, refl, ◌⊎◌, inl, inr, Bool, Option, none, some, List, [], ◌∷◌, leb,
  if◌then◌else◌, arith, ◌∙◌, Option-cases,
}
use trans.Types.IntegerLiteral.{
  IntegerLiteral, Digits, integer_digit_value, literal_base, wide_mod, add_digit, scan_digits,
  after_digits, no_digits, parse_integer_literal,
}

-- The number that the digits at the front of a text denote, after the digits of `n`.
abbrev pub number : ℕ → ℕ → List ℕ → ℕ
number base n [] = n
number base n (c ∷ rest) = elim (integer_digit_value c base) [
  | none ↦ n
  | some d ↦ number base (n * base + d) rest
]

abbrev pub IsBase : ℕ → Type 0
IsBase b = (b ≡ 8) ⊎ (b ≡ 10) ⊎ (b ≡ 16)

-- The loop has read `n`.
abbrev pub HasRead : ℕ → Digits → Type 0
HasRead n s = (s.v ≡ n % wide_mod) × (s.too_wide ≡ leb wide_mod n)

digit-lt : (c base : ℕ) {d : ℕ} → integer_digit_value c base ≡ some d → d < base
unfolding integer_digit_value
digit-lt c base e = ground arith

add_digit-HasRead :
    (base n d : ℕ) (s : Digits)
    → IsBase base
    → d < base
    → HasRead n s
    → HasRead (n * base + d) (add_digit base s d)
add_digit-HasRead base n d s (inl b) h r = ground arith
add_digit-HasRead base n d s (inr (inl b)) h r = ground arith
add_digit-HasRead base n d s (inr (inr b)) h r = ground arith

pub scan_digits-HasRead :
    (base n : ℕ) (text : List ℕ) (s : Digits)
    → IsBase base
    → HasRead n s
    → HasRead (number base n text) (scan_digits base text s).0
unfolding scan_digits
scan_digits-HasRead base n [] s b r = r
scan_digits-HasRead base n (c ∷ rest) s b r = elim (Option-cases (integer_digit_value c base)) [
  | inl e ↦ rw (e, scan_digits, number) r
  | inr (d, e) ↦
      rw (e, scan_digits, number)
        (scan_digits-HasRead base (n * base + d) rest (add_digit base s d) b
          (add_digit-HasRead base n d s b (digit-lt c base e) r))
]

pub literal_base-IsBase : (text : List ℕ) → IsBase (literal_base text).0
unfolding literal_base
literal_base-IsBase text = ground arith

-- The number of a token: that of the digits after its prefix.
abbrev pub token_number : List ℕ → ℕ
token_number text = number (literal_base text).0 0 (literal_base text).1

after_digits-fields :
    (base : ℕ) (p : Digits × List ℕ) (lit : IntegerLiteral)
    → after_digits base p ≡ some lit
    → (lit.base ≡ base) × (lit.value ≡ p.0.v) × (lit.too_wide ≡ p.0.too_wide)
after_digits-fields base (s, rest) lit e = ground arith

not_quoted :
    (b : Bool) (o : Option IntegerLiteral) {lit : IntegerLiteral}
    → (if b then none else o) ≡ some lit
    → o ≡ some lit
not_quoted b o e = ground arith

-- The value of a literal that is read is the number that its digits denote, in 2 ^ 128, in the base of
-- its prefix, and the literal is too wide exactly if that number is 2 ^ 128 or more.
pub parse_integer_literal_lem :
    (text : List ℕ) (lit : IntegerLiteral)
    → parse_integer_literal text ≡ some lit
    → (lit.base ≡ (literal_base text).0)
      × (lit.value ≡ token_number text % wide_mod)
      × (lit.too_wide ≡ leb wide_mod (token_number text))
unfolding parse_integer_literal
parse_integer_literal_lem [] lit e = cc
parse_integer_literal_lem (c ∷ rest) lit e =
    let r =
      scan_digits-HasRead (literal_base (c ∷ rest)).0 0 (literal_base (c ∷ rest)).1 no_digits
        (literal_base-IsBase (c ∷ rest)) (refl, refl) in
    let text : ℕ × List ℕ = literal_base (c ∷ rest) in
    let f =
      after_digits-fields text.0 (scan_digits text.0 text.1 no_digits) lit (not_quoted _ _ e) in
    (f.0, f.1 ∙ r.0, f.2 ∙ r.1)
