-- ===== src/Types/Assignment/Fuel.antt =====
-- src/types/TypeQuery.cpp: enough fuel gives one answer to what may be assigned.
use trans.Prelude.{ℕ, zero, suc, ◌≡◌, refl, false, Bool, ◌||◌, Option, none, some, List, [], ◌∷◌}
use trans.Types.CType.{
  CType, void, primitive, pointer, function, array, record_body, Heap, Member, get_members,
}
use trans.Types.Nesting.{NestsWithin, MembersHave, MemberHas, MembersHave-map}
use trans.Types.Assignment.{any_member, product_decay, assign_with, product_assign_from}

-- Two answers for the members of a transparent union agree on a type.
abbrev Agree : (CType → CType → Bool) → (CType → CType → Bool) → CType → Type 0
Agree f g t = (src : CType) → f t src ≡ g t src

any_member_cong :
    (f g : CType → CType → Bool) (src : CType) (ms : List Member)
    → MembersHave (Agree f g) ms
    → any_member (λ t. f t src) ms ≡ any_member (λ t. g t src) ms
any_member_cong f g src [] h = refl
any_member_cong f g src (m ∷ ms) (h, hs) =
    let rest = any_member_cong f g src ms hs in by_type m.member_type h rest
  where
    by_type :
        (o : Option CType)
        → MemberHas (Agree f g) o
        → any_member (λ t. f t src) ms ≡ any_member (λ t. g t src) ms
        → ((elim o [ none ↦ false | some t ↦ f t src ]) || any_member (λ t. f t src) ms)
          ≡ ((elim o [ none ↦ false | some t ↦ g t src ]) || any_member (λ t. g t src) ms)
    by_type none e r = r
    by_type (some t) e r = rw (e src, r) refl

assign_with_cong :
    (f g : CType → CType → Bool) (heap : Heap) (dest source : CType)
    → MembersHave (Agree f g) (get_members heap dest)
    → assign_with f heap dest source ≡ assign_with g heap dest source
unfolding assign_with
assign_with_cong f g heap dest source h =
    rw (any_member_cong f g (product_decay source) (get_members heap dest) h) refl

-- The answer for the members that a fuel gives.
abbrev nested : Heap → ℕ → CType → CType → Bool
nested heap zero = λ t src. false
nested heap (suc f) = product_assign_from heap f

product_assign_lem :
    (heap : Heap) (n : ℕ) (dest source : CType)
    → product_assign_from heap n dest source ≡ assign_with (nested heap n) heap dest source
unfolding product_assign_from
product_assign_lem heap zero dest source = refl
product_assign_lem heap (suc f) dest source = refl

both_assign :
    (heap : Heap) (n m : ℕ) (dest source : CType)
    → MembersHave (Agree (nested heap n) (nested heap m)) (get_members heap dest)
    → product_assign_from heap n dest source ≡ product_assign_from heap m dest source
both_assign heap n m dest source h =
    rw (product_assign_lem heap n dest source, product_assign_lem heap m dest source)
      (assign_with_cong (nested heap n) (nested heap m) heap dest source h)

-- Where records nest at most `n` and at most `m` deep in the destination, both fuels give one answer
-- to whether a value may be assigned to it.
pub product_assign_from_fuel :
    (heap : Heap) (n m : ℕ) (dest source : CType)
    → NestsWithin heap n dest
    → NestsWithin heap m dest
    → product_assign_from heap n dest source ≡ product_assign_from heap m dest source
unfolding get_members
product_assign_from_fuel heap n m (void q) source p r = both_assign heap n m (void q) source tt
product_assign_from_fuel heap n m (primitive q k) source p r =
    both_assign heap n m (primitive q k) source tt
product_assign_from_fuel heap n m (pointer q t) source p r =
    both_assign heap n m (pointer q t) source tt
product_assign_from_fuel heap n m (function q t a v) source p r =
    both_assign heap n m (function q t a v) source tt
product_assign_from_fuel heap n m (array q t a) source p r =
    both_assign heap n m (array q t a) source tt
product_assign_from_fuel heap zero m (record_body q i) source p r = absurd p
product_assign_from_fuel heap (suc n) zero (record_body q i) source p r = absurd r
product_assign_from_fuel heap (suc n) (suc m) (record_body q i) source p r =
    both_assign heap (suc n) (suc m) (record_body q i) source (
      MembersHave-map (NestsWithin heap n) (NestsWithin heap m)
        (Agree (product_assign_from heap n) (product_assign_from heap m))
        (λ t x y src. product_assign_from_fuel heap n m t src x y) (heap i).members p r)
