-- ===== src/Scanner/Enums/Bodies.antt =====
-- src/scanner/EnumConstantRegistry.cpp: the range of an enumeration and the type that covers it.
use Prim.Native.String.{String}
use trans.Prelude.{
  ℕ, ◌-◌, ◌<◌, ◌≡◌, refl, Bool, true, false, List, [], ◌∷◌, ◌++◌, arith, sym, ◌∙◌, append-nil,
  append_assoc, Bool-cases, inl, inr, All, if◌then◌else◌, ℤ, pos, negsuc, ltb_ℤ, ◌≤ℤ◌,
}
use trans.Types.CType.{Heap}
use trans.Types.IntegerConstant.{
  IntegerConstant, bits_mod, half_mod, signed_bits, width_bits, signed_integral,
}
use trans.Types.IntegerConstant.Value.{InRange}
use trans.Types.IntegerConstant.Ranked.{enum_underlying_type}
use trans.Types.IntegerConstant.Choice.{enum_underlying_type-covers, signed_bits-range}
use trans.Scanner.Enums.{
  OpenEnumBody, ClosedEnumBody, empty_body, EnumConstantRegistry, open_body, close_body,
  record_in_current_body, record_enumerator, closed_body,
}

abbrev Enumerator : Type 0
Enumerator = String × IntegerConstant

-- A registry after the enumerators of a body, in their order.
pub record_all :
    Heap → EnumConstantRegistry → List (String × IntegerConstant) → EnumConstantRegistry
record_all heap t [] = t
record_all heap t ((name, value) ∷ rest) =
    record_all heap (record_in_current_body heap t name value) rest

record_body_all : Heap → OpenEnumBody → List Enumerator → OpenEnumBody
record_body_all heap b [] = b
record_body_all heap b ((name, value) ∷ rest) =
    record_body_all heap (record_enumerator heap b name value) rest

record_all-body :
    (heap : Heap) (t : EnumConstantRegistry) (b : OpenEnumBody) (bs : List OpenEnumBody)
    (es : List Enumerator)
    → record_all heap (record t { bodies = b ∷ bs }) es
      ≡ record t { bodies = record_body_all heap b es ∷ bs }
unfolding record_all record_body_all record_in_current_body
record_all-body heap t b bs [] = refl
record_all-body heap t b bs ((name, value) ∷ rest) =
    record_all-body heap t (record_enumerator heap b name value) bs rest

-- An integer lies in the range of a body.
abbrev Within : OpenEnumBody → ℤ → Type 0
Within b v = (b.has_range ≡ true) × (b.minimum ≤ℤ v) × (v ≤ℤ b.maximum)

abbrev AreWithin : OpenEnumBody → List Enumerator → Type 0
AreWithin b es = All (λ e. Within b (signed_bits e.1.bits)) es

-- The range, where there is one, is one of `SignedBits`.
abbrev IsBounded : OpenEnumBody → Type 0
IsBounded b =
    (b.has_range ≡ true)
    → (b.minimum ≤ℤ b.maximum)
      × (negsuc (half_mod - 1) ≤ℤ b.minimum)
      × (b.maximum ≤ℤ pos (half_mod - 1))

record-Within :
    (heap : Heap) (b : OpenEnumBody) (name : String) (value : IntegerConstant)
    → Within (record_enumerator heap b name value) (signed_bits value.bits)
unfolding record_enumerator
record-Within heap b name value = ground arith

record-keeps :
    (heap : Heap) (b : OpenEnumBody) (name : String) (value : IntegerConstant) (v : ℤ)
    → Within b v
    → Within (record_enumerator heap b name value) v
unfolding record_enumerator
record-keeps heap b name value v w = ground arith

grow :
    (v low high : ℤ)
    → negsuc (half_mod - 1) ≤ℤ v
    → v ≤ℤ pos (half_mod - 1)
    → (low ≤ℤ high) × (negsuc (half_mod - 1) ≤ℤ low) × (high ≤ℤ pos (half_mod - 1))
    → let low' = if ltb_ℤ v low then v else low in
      let high' = if ltb_ℤ high v then v else high in
      (low' ≤ℤ high') × (negsuc (half_mod - 1) ≤ℤ low') × (high' ≤ℤ pos (half_mod - 1))
grow v low high a b w = ground arith

record-IsBounded :
    (heap : Heap) (b : OpenEnumBody) (name : String) (value : IntegerConstant)
    → value.bits < bits_mod
    → IsBounded b
    → IsBounded (record_enumerator heap b name value)
unfolding record_enumerator
record-IsBounded heap b name value h w =
    let r = signed_bits-range value.bits h in
    λ _. elim (Bool-cases b.has_range) [
      | inl e ↦ rw e (grow (signed_bits value.bits) b.minimum b.maximum r.0 r.1 (w e))
      | inr e ↦ rw e (omega arith, r.0, r.1)
    ]

body-keeps :
    (heap : Heap) (b : OpenEnumBody) (es : List Enumerator) (v : ℤ)
    → Within b v
    → Within (record_body_all heap b es) v
unfolding record_body_all
body-keeps heap b [] v w = w
body-keeps heap b ((name, value) ∷ rest) v w =
    body-keeps heap (record_enumerator heap b name value) rest v
      (record-keeps heap b name value v w)

abbrev AreBits : List Enumerator → Type 0
AreBits es = All (λ e. e.1.bits < bits_mod) es

body-AreWithin :
    (heap : Heap) (b : OpenEnumBody) (es : List Enumerator)
    → AreWithin (record_body_all heap b es) es
unfolding record_body_all
body-AreWithin heap b [] = tt
body-AreWithin heap b ((name, value) ∷ rest) = (
  body-keeps heap (record_enumerator heap b name value) rest (signed_bits value.bits)
      (record-Within heap b name value),
  body-AreWithin heap (record_enumerator heap b name value) rest,
)

body-IsBounded :
    (heap : Heap) (b : OpenEnumBody) (es : List Enumerator)
    → AreBits es
    → IsBounded b
    → IsBounded (record_body_all heap b es)
unfolding record_body_all
body-IsBounded heap b [] h w = w
body-IsBounded heap b ((name, value) ∷ rest) h w =
    body-IsBounded heap (record_enumerator heap b name value) rest h.1
      (record-IsBounded heap b name value h.0 w)

body-enumerators :
    (heap : Heap) (b : OpenEnumBody) (es : List Enumerator)
    → (record_body_all heap b es).enumerators ≡ b.enumerators ++ es
unfolding record_body_all record_enumerator
body-enumerators heap b [] = sym (append-nil b.enumerators)
body-enumerators heap b (e ∷ rest) =
    body-enumerators heap (record_enumerator heap b e.0 e.1) rest
    ∙ append_assoc b.enumerators (e ∷ []) rest

-- The type of an enumeration represents a value.
abbrev pub Represented : Heap → ClosedEnumBody → ℤ → Type 0
Represented heap closed v =
    let t = enum_underlying_type closed.minimum closed.maximum in
    InRange (width_bits heap t) (signed_integral t) v

between :
    (n : ℕ) (s : Bool) (low v high : ℤ)
    → InRange n s low
    → InRange n s high
    → low ≤ℤ v
    → v ≤ℤ high
    → InRange n s v
between n true low v high a b p q = (omega arith, omega arith)
between n false low v high a b p q = (omega arith, omega arith)

within-Represented :
    (heap : Heap) (b : OpenEnumBody) (es : List Enumerator)
    → IsBounded b
    → AreWithin b es
    → All (λ e. Represented heap (closed_body b) (signed_bits e.1.bits)) es
within-Represented heap b [] w h = tt
within-Represented heap b (e ∷ rest) w h =
    let r = w h.0.0 in
    let c = enum_underlying_type-covers heap b.minimum b.maximum r.0 r.1 r.2 in
    (
      between _ _ b.minimum (signed_bits e.1.bits) b.maximum c.0 c.1 h.0.1 h.0.2,
      within-Represented heap b rest w h.1,
    )

-- After a body is opened, enumerators whose bits are below 2 ^ 128 are recorded in it and it is closed,
-- the enumerators are handed out in their order, the type chosen for the range of the body represents
-- each of their values as `__int128`, and the registry is the one before the body.
pub enumeration-covers :
    (heap : Heap) (t : EnumConstantRegistry) (es : List (String × IntegerConstant))
    → All (λ e. e.1.bits < bits_mod) es
    → let (after, closed) = close_body (record_all heap (open_body t) es) in
      (after ≡ t)
      × (closed.enumerators ≡ es)
      × All (λ e. Represented heap closed (signed_bits e.1.bits)) es
unfolding open_body close_body
enumeration-covers heap t es h =
    let b = record_body_all heap empty_body es in
    rw (record_all-body heap t empty_body t.bodies es) (
      refl,
      body-enumerators heap empty_body es,
      within-Represented heap b es (body-IsBounded heap empty_body es h (λ e. cc))
          (body-AreWithin heap empty_body es),
    )
