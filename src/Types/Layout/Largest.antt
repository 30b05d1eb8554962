-- ===== src/Types/Layout/Largest.antt =====
-- src/types/Type.cpp: `typeAlignment` of a record is the largest of its members' alignments.
use trans.Prelude.{
  ℕ, zero, suc, ◌≤◌, ◌≡◌, refl, true, false, Option, none, some, List, [], ◌∷◌, arith, ltb, inl,
  inr, ◌⊎◌, Bool-cases,
}
use trans.Types.CType.{
  CType, void, primitive, pointer, function, array, record_body, Qualifiers, Heap, Member,
}
use trans.Types.Nesting.{MemberHas, MembersHave, NestsWithin, MembersHave-map}
use trans.Types.Layout.{type_alignment, wider, align_members}
use trans.Types.Layout.Alignment.{type_alignment_fuel, align_members_cong}

-- Some member has a type with a property.
abbrev pub SomeHas : (CType → Type 0) → Option CType → Type 0
SomeHas P none = ⊥
SomeHas P (some t) = P t

pub data SomeMember (P : CType → Type 0) : List Member → Type 0 where
  this : {m : Member} {ms : List Member} → SomeHas P m.member_type → SomeMember P (m ∷ ms)
  further : {m : Member} {ms : List Member} → SomeMember P ms → SomeMember P (m ∷ ms)

-- A number is 1 or the measure of some member, and no member's is larger.
pub record IsLargest (f : CType → ℕ) (ms : List Member) (a : ℕ) : Type 0 where
  pub bounds : MembersHave (λ t. f t ≤ a) ms
  pub attained : (a ≡ 1) ⊎ SomeMember (λ t. f t ≡ a) ms

record Widened (f : CType → ℕ) (o : Option CType) (a w : ℕ) : Type 0 where
  keeps : a ≤ w
  covers : MemberHas (λ t. f t ≤ w) o
  either : (w ≡ a) ⊎ SomeHas (λ t. f t ≡ w) o

wider-Widened : (f : CType → ℕ) (a : ℕ) (o : Option CType) → Widened f o a (wider f a o)
wider-Widened f a none = record { keeps = omega arith; covers = tt; either = inl refl }
wider-Widened f a (some t) = elim (Bool-cases (ltb a (f t))) [
  | inl e ↦ rw e (record { keeps = ground arith; covers = omega arith; either = inr refl })
  | inr e ↦ rw e (record { keeps = omega arith; covers = ground arith; either = inl refl })
]

MemberHas-le :
    (f : CType → ℕ) (o : Option CType) (a b : ℕ)
    → a ≤ b
    → MemberHas (λ t. f t ≤ a) o
    → MemberHas (λ t. f t ≤ b) o
MemberHas-le f none a b h p = tt
MemberHas-le f (some t) a b h p = omega (arith, h, p)

SomeHas-to :
    (f : CType → ℕ) (o : Option CType) (a b : ℕ)
    → b ≡ a
    → SomeHas (λ t. f t ≡ a) o
    → SomeHas (λ t. f t ≡ b) o
SomeHas-to f none a b h p = p
SomeHas-to f (some t) a b h p = omega (arith, h, p)

record Folded (f : CType → ℕ) (ms : List Member) (a w : ℕ) : Type 0 where
  keeps : a ≤ w
  bounds : MembersHave (λ t. f t ≤ w) ms
  either : (w ≡ a) ⊎ SomeMember (λ t. f t ≡ w) ms

align_members-Folded :
    (f : CType → ℕ) (ms : List Member) (a : ℕ) → Folded f ms a (align_members f ms a)
align_members-Folded f [] a = record { keeps = omega arith; bounds = tt; either = inl refl }
align_members-Folded f (m ∷ ms) a =
    let w : ℕ = wider f a m.member_type in
    let one = wider-Widened f a m.member_type in
    let rest = align_members-Folded f ms w in
    let total : ℕ = align_members f ms w in
    record {
      keeps = omega (arith, one.keeps, rest.keeps);
      bounds = (MemberHas-le f m.member_type w total rest.keeps one.covers, rest.bounds);
      either = elim rest.either [
        | inr s ↦ inr (further s)
        | inl e ↦ elim one.either [
          | inl g ↦ inl (omega (arith, e, g))
          | inr s ↦ inr (this (SomeHas-to f m.member_type w total e s))
        ]
      ];
    }

NestsWithin-suc :
    (heap : Heap) (n : ℕ) (t : CType) → NestsWithin heap n t → NestsWithin heap (suc n) t
NestsWithin-suc heap n (void q) h = tt
NestsWithin-suc heap n (primitive q k) h = tt
NestsWithin-suc heap n (pointer q t) h = tt
NestsWithin-suc heap n (function q t a v) h = tt
NestsWithin-suc heap n (array q t a) h = NestsWithin-suc heap n t h
NestsWithin-suc heap zero (record_body q i) h = absurd h
NestsWithin-suc heap (suc n) (record_body q i) h =
    MembersHave-map (NestsWithin heap n) (NestsWithin heap n) (NestsWithin heap (suc n))
      (λ t x y. NestsWithin-suc heap n t x) (heap i).members h h

same_members :
    (heap : Heap) (n i : ℕ)
    → MembersHave (NestsWithin heap n) (heap i).members
    → align_members (type_alignment heap n) (heap i).members 1
      ≡ align_members (type_alignment heap (suc n)) (heap i).members 1
same_members heap n i h =
    align_members_cong (type_alignment heap n) (type_alignment heap (suc n)) (heap i).members 1 (
      MembersHave-map (NestsWithin heap n) (NestsWithin heap n)
        (λ t. type_alignment heap n t ≡ type_alignment heap (suc n) t)
        (λ t x y. type_alignment_fuel heap n (suc n) t x (NestsWithin-suc heap n t x))
        (heap i).members h h)

-- The alignment of a packed record is 1. That of another record is the largest of the alignments of
-- its members, or 1 where all are below that. Records nest at most `n` deep in the members; fuel for
-- the record is fuel for them.
pub type_alignment-IsLargest :
    (heap : Heap) (n : ℕ) (q : Qualifiers) (i : ℕ)
    → NestsWithin heap n (record_body q i)
    → (((heap i).packed ≡ true) × (type_alignment heap n (record_body q i) ≡ 1))
      ⊎ (((heap i).packed ≡ false)
          × IsLargest
              (type_alignment heap n)
              (heap i).members
              (type_alignment heap n (record_body q i)))
unfolding type_alignment
type_alignment-IsLargest heap zero q i h = absurd h
type_alignment-IsLargest heap (suc n) q i h = elim (Bool-cases (heap i).packed) [
  | inl e ↦ inl (e, rw (type_alignment, e) refl)
  | inr e ↦
      let total : ℕ = align_members (type_alignment heap (suc n)) (heap i).members 1 in
      let p = align_members-Folded (type_alignment heap (suc n)) (heap i).members 1 in
      let some_unit : ltb total 1 ≡ false = ground (arith, p.keeps) in
      inr (
        e,
        rw (type_alignment, e, same_members heap n i h, some_unit)
            (record { bounds = p.bounds; attained = p.either }),
      )
]
