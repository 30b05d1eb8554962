-- ===== src/Types/Nesting.antt =====
-- Records within records: a record holds its members by value, so a function that follows them ends
-- where the nesting does. C forbids a record that holds itself; here that is `NestsWithin`.
use trans.Prelude.{ℕ, zero, suc, Option, none, some, List, [], ◌∷◌}
use trans.Types.CType.{CType, void, primitive, pointer, function, array, record_body, Heap, Member}

abbrev pub MemberHas : (CType → Type 0) → Option CType → Type 0
MemberHas P none = Unit
MemberHas P (some t) = P t

abbrev pub MembersHave : (CType → Type 0) → List Member → Type 0
MembersHave P [] = Unit
MembersHave P (m ∷ ms) = MemberHas P m.member_type × MembersHave P ms

-- At most `n` records lie within one another in the type.
abbrev pub NestsWithin : Heap → ℕ → CType → Type 0
NestsWithin heap n (void q) = Unit
NestsWithin heap n (primitive q k) = Unit
NestsWithin heap n (pointer q t) = Unit
NestsWithin heap n (function q t a v) = Unit
NestsWithin heap n (array q t p) = NestsWithin heap n t
NestsWithin heap zero (record_body q i) = ⊥
NestsWithin heap (suc n) (record_body q i) = MembersHave (NestsWithin heap n) (heap i).members

-- What holds of a type that two facts are known of holds of the members that they are known of.
pub MembersHave-map :
    (P Q R : CType → Type 0)
    → ((t : CType) → P t → Q t → R t)
    → (ms : List Member) → MembersHave P ms
    → MembersHave Q ms
    → MembersHave R ms
MembersHave-map P Q R k [] p q = tt
MembersHave-map P Q R k (m ∷ ms) p q =
    (one m.member_type p.0 q.0, MembersHave-map P Q R k ms p.1 q.1)
  where
    one : (o : Option CType) → MemberHas P o → MemberHas Q o → MemberHas R o
    one none x y = tt
    one (some t) x y = k t x y
