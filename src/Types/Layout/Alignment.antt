-- ===== src/Types/Layout/Alignment.antt =====
-- src/types/Type.cpp: `typeAlignment` gives 1, 2, 4, 8 or 16, and enough fuel gives one value.
use trans.Prelude.{
  ℕ, zero, suc, ◌≡◌, refl, Option, none, some, List, [], ◌∷◌, arith, ltb, inl, if_both,
}
use trans.Abi.Words.Align.{IsAlignment}
use trans.Types.Primitive.{PrimitiveKind, kind_alignment}
use trans.Types.CType.{CType, void, primitive, pointer, function, array, record_body, Heap, Member}
use trans.Types.Nesting.{MemberHas, MembersHave, NestsWithin, MembersHave-map}
use trans.Types.Layout.{type_alignment, wider, align_members}

kind_alignment-IsAlignment : (k : PrimitiveKind) → IsAlignment (kind_alignment k)
unfolding kind_alignment
kind_alignment-IsAlignment k = ground arith

align_members-IsAlignment :
    (rec : CType → ℕ)
    → ((t : CType) → IsAlignment (rec t))
    → (ms : List Member) (a : ℕ) → IsAlignment a
    → IsAlignment (align_members rec ms a)
align_members-IsAlignment rec h [] a p = p
align_members-IsAlignment rec h (m ∷ ms) a p =
    align_members-IsAlignment rec h ms _ (larger m.member_type)
  where
    larger : (o : Option CType) → IsAlignment (wider rec a o)
    larger none = p
    larger (some t) = if_both IsAlignment (ltb a (rec t)) _ _ (h t) p

-- The alignment of every type is 1, 2, 4, 8 or 16.
pub type_alignment-IsAlignment :
    (heap : Heap) (fuel : ℕ) (t : CType) → IsAlignment (type_alignment heap fuel t)
unfolding type_alignment
type_alignment-IsAlignment heap fuel (void q) = inl refl
type_alignment-IsAlignment heap fuel (primitive q k) =
    if_both IsAlignment _ _ _ (inl refl) (kind_alignment-IsAlignment k)
type_alignment-IsAlignment heap fuel (pointer q t) = ground arith
type_alignment-IsAlignment heap fuel (function q t a v) = inl refl
type_alignment-IsAlignment heap fuel (array q t p) = type_alignment-IsAlignment heap fuel t
type_alignment-IsAlignment heap zero (record_body q i) = inl refl
type_alignment-IsAlignment heap (suc fuel) (record_body q i) =
    if_both IsAlignment (heap i).packed _ _ (inl refl) (
      if_both IsAlignment _ _ _ (inl refl) (
        align_members-IsAlignment (type_alignment heap fuel) (type_alignment-IsAlignment heap fuel)
          (heap i).members 1 (inl refl)))

wider_cong :
    (f g : CType → ℕ) (a : ℕ) (o : Option CType)
    → MemberHas (λ t. f t ≡ g t) o
    → wider f a o ≡ wider g a o
wider_cong f g a none e = refl
wider_cong f g a (some t) e = rw e

-- Two measures that agree on the members agree on the loop.
pub align_members_cong :
    (f g : CType → ℕ) (ms : List Member) (a : ℕ)
    → MembersHave (λ t. f t ≡ g t) ms
    → align_members f ms a ≡ align_members g ms a
align_members_cong f g [] a h = refl
align_members_cong f g (m ∷ ms) a (e, h) =
    rw (wider_cong f g a m.member_type e) (align_members_cong f g ms (wider g a m.member_type) h)

-- Where records nest at most `n` and at most `m` deep in the type, both fuels give one alignment.
pub type_alignment_fuel :
    (heap : Heap) (n m : ℕ) (t : CType)
    → NestsWithin heap n t
    → NestsWithin heap m t
    → type_alignment heap n t ≡ type_alignment heap m t
unfolding type_alignment
type_alignment_fuel heap n m (void q) p r = refl
type_alignment_fuel heap n m (primitive q k) p r = refl
type_alignment_fuel heap n m (pointer q t) p r = refl
type_alignment_fuel heap n m (function q t a v) p r = refl
type_alignment_fuel heap n m (array q t a) p r = type_alignment_fuel heap n m t p r
type_alignment_fuel heap zero m (record_body q i) p r = absurd p
type_alignment_fuel heap (suc n) zero (record_body q i) p r = absurd r
type_alignment_fuel heap (suc n) (suc m) (record_body q i) p r = rw (
    align_members_cong (type_alignment heap n) (type_alignment heap m) (heap i).members 1 (
      MembersHave-map (NestsWithin heap n) (NestsWithin heap m)
        (λ t. type_alignment heap n t ≡ type_alignment heap m t) (type_alignment_fuel heap n m)
        (heap i).members p r))
