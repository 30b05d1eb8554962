-- ===== src/Types/IntegerConstant/Choice.antt =====
-- src/types/IntegerConstant.cpp: the types chosen for enumerations, and the next enumerator.
use trans.Prelude.{
  ℕ, ◌+◌, ◌-◌, ◌%◌, ◌<◌, ◌≡◌, ◌≢◌, true, arith, ℤ, pos, negsuc, ◌≤ℤ◌, ◌+ℤ◌, ap, sym, ◌∙◌,
}
use trans.Types.CType.{CType, Heap}
use trans.Types.IntegerConstant.{
  IntegerConstant, bits_mod, half_mod, of_ℤ, signed_bits, width_bits, signed_integral, canonicalize,
  from_literal_bits,
}
use trans.Types.IntegerConstant.Value.{
  InRange, value_of, IsWidth, canonical_bits-of_ℤ, of_ℤ-value_of,
}
use trans.Types.IntegerConstant.Ranked.{enum_underlying_type, next_enumerator}
use trans.Types.IntegerConstant.Operand.{value}
use trans.Types.IntegerConstant.Exact.{value_of-of_ℤ}

-- The range of two values is covered by the type of an enumeration with them.
pub enum_underlying_type-covers :
    (heap : Heap) (min max : ℤ)
    → min ≤ℤ max
    → negsuc (half_mod - 1) ≤ℤ min
    → max ≤ℤ pos (half_mod - 1)
    → InRange
        (width_bits heap (enum_underlying_type min max))
        (signed_integral (enum_underlying_type min max))
        min
      × InRange
          (width_bits heap (enum_underlying_type min max))
          (signed_integral (enum_underlying_type min max))
          max
unfolding enum_underlying_type width_bits signed_integral
enum_underlying_type-covers heap min max o a b = ground arith

IsWidth-enum :
    (heap : Heap) (min max : ℤ) → IsWidth (width_bits heap (enum_underlying_type min max))
unfolding enum_underlying_type width_bits
IsWidth-enum heap min max = ground arith

InRange-both :
    (heap : Heap) (v : ℤ)
    → negsuc (half_mod - 1) ≤ℤ v
    → v ≤ℤ pos (half_mod - 1)
    → InRange
        (width_bits heap (enum_underlying_type v v))
        (signed_integral (enum_underlying_type v v))
        v
InRange-both heap v a b = (enum_underlying_type-covers heap v v (omega arith) a b).0

canonical-value :
    (heap : Heap) (t : CType) (v : ℤ)
    → IsWidth (width_bits heap t)
    → InRange (width_bits heap t) (signed_integral t) v
    → value (canonicalize heap (of_ℤ v) t) ≡ v
unfolding canonicalize
canonical-value heap t v w r =
    ap (value_of (signed_integral t)) (canonical_bits-of_ℤ _ _ v w r) ∙ value_of-of_ℤ _ _ v w r

next_bits :
    (b : ℕ)
    → b < bits_mod
    → b ≢ half_mod - 1
    → signed_bits ((b + 1) % bits_mod) ≡ signed_bits b +ℤ pos 1
unfolding ◌+ℤ◌
next_bits b h n = ground arith

pub signed_bits-range :
    (b : ℕ)
    → b < bits_mod
    → (negsuc (half_mod - 1) ≤ℤ signed_bits b) × (signed_bits b ≤ℤ pos (half_mod - 1))
signed_bits-range b h = ground arith

-- After an enumerator whose bits are not those of the largest `__int128`, the next one stands for one
-- more than the bits do as an `__int128`.
pub next_enumerator_lem :
    (heap : Heap) (c : IntegerConstant)
    → c.bits < bits_mod
    → c.bits ≢ half_mod - 1
    → value (next_enumerator heap c) ≡ signed_bits c.bits +ℤ pos 1
unfolding next_enumerator from_literal_bits
next_enumerator_lem heap c h n =
    let b : ℕ = (c.bits + 1) % bits_mod in
    let v = signed_bits b in
    let lt : b < bits_mod = omega arith in
    let r = signed_bits-range b lt in
    ap (λ x. value (canonicalize heap x (enum_underlying_type v v))) (sym (of_ℤ-value_of true b lt))
    ∙ canonical-value heap (enum_underlying_type v v) v (IsWidth-enum heap v v)
        (InRange-both heap v r.0 r.1)
    ∙ next_bits c.bits h n
