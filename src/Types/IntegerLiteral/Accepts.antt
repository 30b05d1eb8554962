-- ===== src/Types/IntegerLiteral/Accepts.antt =====
-- src/util/IntegerLiteral.h: the tokens that are read as literals.
use trans.Prelude.{
  ℕ, ◌+◌, ◌*◌, ◌%◌, ◌≡◌, refl, ◌≢◌, Bool, true, false, none, some, List, [], ◌∷◌, ◌++◌, ◌||◌, leb,
  ◌==◌, arith, ◌∙◌, ap, subst, All, inl, inr, Option-cases,
}
use trans.Types.IntegerLiteral.{
  IntegerLiteral, Digits, integer_digit_value, literal_base, wide_mod, add_digit, scan_digits,
  scan_suffix, after_digits, no_digits, parse_integer_literal,
}
use trans.Types.IntegerLiteral.Number.{
  number, IsBase, HasRead, scan_digits-HasRead, literal_base-IsBase,
}

abbrev pub is_u : ℕ → Bool
is_u c = c == b'u' || c == b'U'

abbrev pub is_l : ℕ → Bool
is_l c = c == b'l' || c == b'L'

abbrev pub has : (ℕ → Bool) → List ℕ → Bool
has test [] = false
has test (c ∷ rest) = test c || has test rest

abbrev pub IsSuffix : List ℕ → Type 0
IsSuffix text = All (λ c. (is_u c || is_l c) ≡ true) text

abbrev pub AreDigits : ℕ → List ℕ → Type 0
AreDigits base text = All (λ c. integer_digit_value c base ≢ none) text

suffix_no_digit : (c base : ℕ) → (is_u c || is_l c) ≡ true → integer_digit_value c base ≡ none
unfolding integer_digit_value
suffix_no_digit c base h = ground arith

scan_suffix_lem :
    (text : List ℕ) (u l : Bool)
    → IsSuffix text
    → scan_suffix text u l ≡ some (u || has is_u text, l || has is_l text)
unfolding scan_suffix
scan_suffix_lem [] u l h = ground arith
scan_suffix_lem (c ∷ rest) u l h =
    ground (arith, scan_suffix_lem rest true l h.1, scan_suffix_lem rest u true h.1)

-- The loop ends where the suffix starts.
scan_to_suffix :
    (base n : ℕ) (text suffix : List ℕ) (s : Digits)
    → AreDigits base text
    → IsSuffix suffix
    → ((scan_digits base (text ++ suffix) s).1 ≡ suffix)
      × (number base n (text ++ suffix) ≡ number base n text)
unfolding scan_digits
scan_to_suffix base n [] [] s h k = (refl, refl)
scan_to_suffix base n [] (c ∷ rest) s h k =
    rw (suffix_no_digit c base k.0, scan_digits, number) (refl, refl)
scan_to_suffix base n (c ∷ text) suffix s h k = elim (Option-cases (integer_digit_value c base)) [
  | inl e ↦ absurd (h.0 e)
  | inr (d, e) ↦
      rw (e, scan_digits, number)
        (scan_to_suffix base (n * base + d) text suffix (add_digit base s d) h.1 k)
]

-- The flag for a digit stays set.
any_stays :
    (base : ℕ) (text : List ℕ) (s : Digits) → s.any ≡ true → (scan_digits base text s).0.any ≡ true
unfolding scan_digits
any_stays base [] s h = h
any_stays base (c ∷ rest) s h = elim (Option-cases (integer_digit_value c base)) [
  | inl e ↦ rw (e, scan_digits) h
  | inr (d, e) ↦ rw (e, scan_digits) (any_stays base rest (add_digit base s d) refl)
]

any_digit :
    (base c : ℕ) (text : List ℕ) (s : Digits)
    → integer_digit_value c base ≢ none
    → (scan_digits base (c ∷ text) s).0.any ≡ true
unfolding scan_digits
any_digit base c text s h = elim (Option-cases (integer_digit_value c base)) [
  | inl e ↦ absurd (h e)
  | inr (d, e) ↦ rw (e, scan_digits) (any_stays base text (add_digit base s d) refl)
]

abbrev expected : ℕ → ℕ → List ℕ → IntegerLiteral
expected base n suffix = record {
  value = n % wide_mod;
  base = base;
  uns = has is_u suffix;
  lng = has is_l suffix;
  too_wide = leb wide_mod n;
}

after_digits_lem :
    (base n : ℕ) (p : Digits × List ℕ) (suffix : List ℕ)
    → p.1 ≡ suffix
    → p.0.any ≡ true
    → HasRead n p.0
    → IsSuffix suffix
    → after_digits base p ≡ some (expected base n suffix)
after_digits_lem base n (s, rest) suffix e a r k =
    rw (a, e, scan_suffix_lem suffix false false k, r.0, r.1) refl

-- A token with a digit after its prefix, more digits of its base, and then a suffix of letters `u` and
-- `l` of either case is read: its value is the number of the digits in 2 ^ 128, its flags say which
-- letters it has, and it is too wide exactly if the number is 2 ^ 128 or more.
pub parse_integer_literal-accepts :
    (first : ℕ) (rest : List ℕ) (base digit : ℕ) (digits suffix : List ℕ)
    → first ≢ b'\''
    → literal_base (first ∷ rest) ≡ (base, digit ∷ digits ++ suffix)
    → AreDigits base (digit ∷ digits)
    → IsSuffix suffix
    → parse_integer_literal (first ∷ rest)
      ≡ some (record {
        value = number base 0 (digit ∷ digits) % wide_mod;
        base = base;
        uns = has is_u suffix;
        lng = has is_l suffix;
        too_wide = leb wide_mod (number base 0 (digit ∷ digits));
      })
unfolding parse_integer_literal
parse_integer_literal-accepts first rest base digit digits suffix q e h k =
    let b : IsBase base = subst (λ p. IsBase p.0) e (literal_base-IsBase (first ∷ rest)) in
    let text : List ℕ = digit ∷ digits ++ suffix in
    let r = scan_digits-HasRead base 0 text no_digits b (refl, refl) in
    let t = scan_to_suffix base 0 (digit ∷ digits) suffix no_digits h k in
    let a = any_digit base digit (digits ++ suffix) no_digits h.0 in
    let n : (first == b'\'') ≡ false = ground arith in
    rw (n, e)
      (after_digits_lem base (number base 0 text) (scan_digits base text no_digits) suffix t.0 a r k
        ∙ ap (λ m. some (expected base m suffix)) t.1)
