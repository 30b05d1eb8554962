-- ===== src/Types/Classify/Fuel.antt =====
-- src/types/SysVClassify.cpp: enough fuel gives one classification.
use trans.Prelude.{ℕ, zero, suc, ◌+◌, ◌≡◌, refl, Option, none, some, List, [], ◌∷◌}
use trans.Types.CType.{
  CType, void, primitive, pointer, function, array, record_body, Heap, Member, BitField, get_size,
}
use trans.Types.Nesting.{NestsWithin, MembersHave, MemberHas, MembersHave-map}
use trans.Types.Layout.{type_alignment}
use trans.Types.Layout.Alignment.{type_alignment_fuel}
use trans.Abi.Classes.{no_class}
use trans.Types.Classify.{
  Eightbytes, merge_both, classify_member, classify_elements, classify_members, classify_into,
  classify,
}

elements_cong :
    (f g : ℕ → Eightbytes)
    → ((o : ℕ) → f o ≡ g o)
    → (stride o n : ℕ) (acc : Eightbytes)
    → classify_elements f stride o n acc ≡ classify_elements g stride o n acc
unfolding classify_elements
elements_cong f g h stride o zero acc = refl
elements_cong f g h stride o (suc n) acc =
    rw (h o, elements_cong f g h stride (o + stride) n (merge_both acc (g o))) refl

-- Two ways to classify that agree on a type.
abbrev Agree :
    (CType → ℕ) → (CType → ℕ) → (CType → ℕ → Eightbytes) → (CType → ℕ → Eightbytes) → CType → Type 0
Agree a b f g t = (a t ≡ b t) × ((o : ℕ) → f t o ≡ g t o)

module _ (a b : CType → ℕ) (f g : CType → ℕ → Eightbytes) where
  member_cong :
      (base : ℕ) (m : Member) (t : Option CType) (bits : Option BitField) (acc : Eightbytes)
      → MemberHas (Agree a b f g) t
      → classify_member a f base m t bits acc ≡ classify_member b g base m t bits acc
  unfolding classify_member
  member_cong base m none bits acc h = refl
  member_cong base m (some t) (some bits) acc h = refl
  member_cong base m (some t) none acc (e, h) = rw (e, h (base + m.offset_bytes)) refl

  members_cong :
      (base : ℕ) (ms : List Member) (acc : Eightbytes)
      → MembersHave (Agree a b f g) ms
      → classify_members a f base ms acc ≡ classify_members b g base ms acc
  unfolding classify_members
  members_cong base [] acc h = refl
  members_cong base (m ∷ ms) acc (h, hs) =
      rw
        (
          member_cong base m m.member_type m.bit_field acc h,
          members_cong base ms (classify_member b g base m m.member_type m.bit_field acc).0 hs,
        )
        refl

pub classify_into_fuel :
    (heap : Heap) (n m : ℕ) (t : CType) (o : ℕ)
    → NestsWithin heap n t
    → NestsWithin heap m t
    → classify_into heap n t o ≡ classify_into heap m t o
unfolding classify_into
classify_into_fuel heap n m (void q) o p r = refl
classify_into_fuel heap n m (pointer q t) o p r = refl
classify_into_fuel heap n m (function q t a v) o p r = refl
classify_into_fuel heap n m (primitive q k) o p r = refl
classify_into_fuel heap n m (array q t a) o p r =
    rw
      (elements_cong (classify_into heap n t) (classify_into heap m t)
        (λ i. classify_into_fuel heap n m t i p r) (get_size heap t) o a.count (no_class, no_class))
      refl
classify_into_fuel heap zero m (record_body q i) o p r = absurd p
classify_into_fuel heap (suc n) zero (record_body q i) o p r = absurd r
classify_into_fuel heap (suc n) (suc m) (record_body q i) o p r =
    let agree =
      MembersHave-map (NestsWithin heap n) (NestsWithin heap m)
        (Agree (type_alignment heap n) (type_alignment heap m) (classify_into heap n)
          (classify_into heap m))
        (λ t x y. (type_alignment_fuel heap n m t x y, λ k. classify_into_fuel heap n m t k x y))
        (heap i).members p r in
    rw
      (members_cong (type_alignment heap n) (type_alignment heap m) (classify_into heap n)
        (classify_into heap m) o (heap i).members (no_class, no_class) agree)
      refl

-- Where records nest at most `n` and at most `m` deep in the type, both fuels give one
-- classification.
pub classify_fuel :
    (heap : Heap) (n m : ℕ) (t : CType)
    → NestsWithin heap n t
    → NestsWithin heap m t
    → classify heap n t ≡ classify heap m t
unfolding classify
classify_fuel heap n m t p r =
    rw (type_alignment_fuel heap n m t p r, classify_into_fuel heap n m t 0 p r) refl
