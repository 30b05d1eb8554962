-- ===== src/Types/IntegerConstant/Literal.antt =====
-- src/types/IntegerConstant.cpp: the type that `rankedLiteral` gives a literal.
use trans.Prelude.{
  ℕ, ltb, ◌==◌, not, refl, ◌⊎◌, ◌*◌, ◌<◌, ◌≡◌, inl, inr, Bool, true, false, ◌&&◌, ◌||◌, arith, ℤ,
  pos, List, [], ◌∷◌, sym, ◌∙◌, Bool-cases,
}
use trans.Types.Primitive.{PrimitiveKind, signed_integer, kind_size, kind_is_signed}
use trans.Types.CType.{Heap}
use trans.Types.IntegerConstant.{integer_type, bits_mod, half_mod, canonicalize, fits_non_neg}
use trans.Types.IntegerConstant.Value.{InRange}
use trans.Types.IntegerConstant.Ranked.{literal_kinds, first_fitting, ranked_literal}

-- The first item of a list with a property.
data IsFirst {ℓ} (P : PrimitiveKind → Type ℓ) : List PrimitiveKind → PrimitiveKind → Type ℓ where
  found : {k : PrimitiveKind} {ks : List PrimitiveKind} → P k → IsFirst P (k ∷ ks) k
  later :
      {j k : PrimitiveKind} {ks : List PrimitiveKind}
      → ¬ P j
      → IsFirst P ks k
      → IsFirst P (j ∷ ks) k

-- A type can represent an integer.
abbrev pub Represents : ℤ → PrimitiveKind → Type 0
Represents z k = InRange (kind_size k * 8) (kind_is_signed k) z

-- The types that literals have: the integer types from `int` on, `long` and `long long` being one.
abbrev pub is_literal_kind : PrimitiveKind → Bool
is_literal_kind PrimitiveKind.signed_integer = true
is_literal_kind PrimitiveKind.unsigned_integer = true
is_literal_kind PrimitiveKind.signed_long = true
is_literal_kind PrimitiveKind.unsigned_long = true
is_literal_kind PrimitiveKind.signed_int128 = true
is_literal_kind PrimitiveKind.unsigned_int128 = true
is_literal_kind _ = false

abbrev all_literal : List PrimitiveKind → Bool
all_literal [] = true
all_literal (k ∷ ks) = is_literal_kind k && all_literal ks

fits-Represents :
    (heap : Heap) (v : ℕ) (k : PrimitiveKind)
    → is_literal_kind k ≡ true
    → v < bits_mod
    → fits_non_neg heap v (integer_type k) ≡ true
    → Represents (pos v) k
unfolding fits_non_neg kind_size kind_is_signed
fits-Represents heap v k c h e = ground arith

Represents-fits :
    (heap : Heap) (v : ℕ) (k : PrimitiveKind)
    → is_literal_kind k ≡ true
    → Represents (pos v) k
    → fits_non_neg heap v (integer_type k) ≡ true
unfolding fits_non_neg kind_size kind_is_signed
Represents-fits heap v k c h = ground arith

abbrev some_fits : Heap → ℕ → List PrimitiveKind → Bool
some_fits heap v [] = false
some_fits heap v (k ∷ ks) = fits_non_neg heap v (integer_type k) || some_fits heap v ks

true-ne-false : true ≡ false → ⊥
true-ne-false e = cc

and_parts : (a b : Bool) → (a && b) ≡ true → (a ≡ true) × (b ≡ true)
and_parts a b h = ground arith

first_fitting-IsFirst :
    (heap : Heap) (v : ℕ) (last : PrimitiveKind) (ks : List PrimitiveKind)
    → v < bits_mod
    → all_literal ks ≡ true
    → some_fits heap v ks ≡ true
    → IsFirst (Represents (pos v)) ks (first_fitting heap v last ks)
      × (is_literal_kind (first_fitting heap v last ks) ≡ true)
first_fitting-IsFirst heap v last [] h c e = cc
first_fitting-IsFirst heap v last (k ∷ ks) h c e =
    let l = and_parts (is_literal_kind k) (all_literal ks) c in
    elim (Bool-cases (fits_non_neg heap v (integer_type k))) [
      | inl f ↦ rw (f, first_fitting) (found (fits-Represents heap v k l.0 h f), l.0)
      | inr f ↦
          let r = first_fitting-IsFirst heap v k ks h l.1 (rw f at e) in
          rw (f, first_fitting)
            (later (λ p. true-ne-false (sym (Represents-fits heap v k l.0 p) ∙ f)) r.0, r.1)
    ]

literal_kinds-literal :
    (base : ℕ) (uns lng : Bool) → all_literal (literal_kinds base uns lng) ≡ true
unfolding literal_kinds
literal_kinds-literal base uns lng = ground arith

literal_kinds-fit :
    (heap : Heap) (v base : ℕ) (uns lng : Bool)
    → v < half_mod
    → some_fits heap v (literal_kinds base uns lng) ≡ true
unfolding literal_kinds fits_non_neg
literal_kinds-fit heap v base uns lng h = ground arith

literal-canonical :
    (heap : Heap) (v : ℕ) (k : PrimitiveKind)
    → is_literal_kind k ≡ true
    → v < bits_mod
    → Represents (pos v) k
    → canonicalize heap v (integer_type k) ≡ record { bits = v; type = integer_type k }
unfolding canonicalize kind_size kind_is_signed
literal-canonical heap v k c h r = ground arith

IsFirst-holds {ℓ} :
    {P : PrimitiveKind → Type ℓ} {ks : List PrimitiveKind} {k : PrimitiveKind}
    → IsFirst P ks k
    → P k
IsFirst-holds (found p) = p
IsFirst-holds (later n f) = IsFirst-holds f

-- The rules of C for a literal with a base and with or without the suffixes `u` and `l`, with
-- `__int128` for the extended integer types: a suffix `l` asks for a type of 8 bytes or more, a suffix
-- `u` for an unsigned type, and a decimal literal without `u` for a signed one.
pub record Admits (base : ℕ) (uns lng : Bool) (k : PrimitiveKind) : Type 0 where
  pub literal : is_literal_kind k ≡ true
  pub long_enough : (lng && ltb (kind_size k) 8) ≡ false
  pub unsigned_kept : (uns && kind_is_signed k) ≡ false
  pub signed_kept : (not uns && (not (base == 8 || base == 16) && not (kind_is_signed k))) ≡ false

-- The first of two types has the lower rank, or it is the signed one of the two of a rank.
abbrev pub Precedes : PrimitiveKind → PrimitiveKind → Type 0
Precedes j k =
    (kind_size j < kind_size k)
    ⊎ ((kind_size j ≡ kind_size k) × ((kind_is_signed j && not (kind_is_signed k)) ≡ true))

-- A type before another that the rules admit and that can represent the value.
pub record Better (v base : ℕ) (uns lng : Bool) (k : PrimitiveKind) : Type 0 where
  pub kind : PrimitiveKind
  pub admitted : Admits base uns lng kind
  pub represents : Represents (pos v) kind
  pub precedes : Precedes kind k

-- The first type that the rules admit and that can represent the value.
pub record IsChosen (v base : ℕ) (uns lng : Bool) (k : PrimitiveKind) : Type 0 where
  pub admitted : Admits base uns lng k
  pub represents : Represents (pos v) k
  pub least : ¬ Better v base uns lng k

abbrev admits : ℕ → Bool → Bool → PrimitiveKind → Bool
admits base uns lng k =
    is_literal_kind k
    && (not (lng && ltb (kind_size k) 8)
        && (not (uns && kind_is_signed k)
            && not (not uns && (not (base == 8 || base == 16) && not (kind_is_signed k)))))

Admits-admits :
    (base : ℕ) (uns lng : Bool) (k : PrimitiveKind)
    → Admits base uns lng k
    → admits base uns lng k ≡ true
Admits-admits base uns lng k a = rw (a.literal, a.long_enough, a.unsigned_kept, a.signed_kept) refl

admits-parts :
    (a b c d : Bool)
    → (a && (not b && (not c && not d))) ≡ true
    → (a ≡ true) × (b ≡ false) × (c ≡ false) × (d ≡ false)
admits-parts a b c d h = ground arith

admits-Admits :
    (base : ℕ) (uns lng : Bool) (k : PrimitiveKind)
    → admits base uns lng k ≡ true
    → Admits base uns lng k
admits-Admits base uns lng k h =
    let (a, b, c, d) = admits-parts _ _ _ _ h in
    record { literal = a; long_enough = b; unsigned_kept = c; signed_kept = d }

chosen-admits :
    (heap : Heap) (v base : ℕ) (uns lng : Bool)
    → admits base uns lng (first_fitting heap v signed_integer (literal_kinds base uns lng)) ≡ true
unfolding literal_kinds fits_non_neg kind_size kind_is_signed
chosen-admits heap v base uns lng = ground arith

not_before :
    (heap : Heap) (v base : ℕ) (uns lng : Bool) (j : PrimitiveKind)
    → v < half_mod
    → admits base uns lng j ≡ true
    → Represents (pos v) j
    → ¬ Precedes j (first_fitting heap v signed_integer (literal_kinds base uns lng))
unfolding literal_kinds fits_non_neg kind_size kind_is_signed
not_before heap v base uns lng j h a r p = ground arith

-- A literal below 2 ^ 127 keeps its value, and its type is one that the rules of C for its base and
-- suffix admit and that can represent the value, with no such type of a lower rank or, of the same
-- rank, a signed one where it is unsigned.
pub ranked_literal_lem :
    (heap : Heap) (v base : ℕ) (uns lng : Bool)
    → v < half_mod
    → (k : PrimitiveKind) × IsChosen v base uns lng k
      × (ranked_literal heap v base uns lng ≡ record { bits = v; type = integer_type k })
unfolding ranked_literal
ranked_literal_lem heap v base uns lng h =
    let ks = literal_kinds base uns lng in
    let k = first_fitting heap v signed_integer ks in
    let f =
      first_fitting-IsFirst heap v signed_integer ks (omega arith)
        (literal_kinds-literal base uns lng) (literal_kinds-fit heap v base uns lng h) in
    (
      first_fitting heap v signed_integer ks,
      record {
        admitted = admits-Admits base uns lng k (chosen-admits heap v base uns lng);
        represents = IsFirst-holds f.0;
        least = λ x.
            not_before heap v base uns lng x.kind h (Admits-admits base uns lng x.kind x.admitted)
              x.represents x.precedes;
      },
      literal-canonical heap v (first_fitting heap v signed_integer ks) f.1 (omega arith)
          (IsFirst-holds f.0),
    )
