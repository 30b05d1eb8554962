-- ===== src/Types/Layout/Whole.antt =====
-- src/types/TypeLayout.cpp: what a completed structure or union looks like, whole.
use Prim.Native.String.{String}
use trans.Prelude.{
  ℕ, ◌+◌, ◌*◌, ◌/◌, ◌≤◌, ◌<◌, ◌≡◌, refl, subst, Bool, true, false, List, [], ◌∷◌, arith, inl, inr,
  Option-cases,
}
use trans.Types.CType.{
  CType, void, primitive, pointer, function, array, record_body, Heap, StructBody, get_size,
}
use trans.Types.Query.{is_integral}
use trans.Types.Layout.{
  Outcome, accepted, rejected, ◌>>=◌, ◌>>◌, array_type_error, LayoutCursor, MemberSpec,
  unique_member_name_error, complete_member_error, bit_field_unit_bits,
  layout_ordinary_struct_member, layout_bit_field_struct_member, finalize_layout_size,
}
use trans.Types.Layout.Record.{
  member_align, no_items, is_flexible, raise_align, place_member, layout_member, layout_members,
  layout_record_members, start_cursor,
}
use trans.Types.Layout.Order.{
  Spans, done, Spans-weaken, ordinary_lem, ordinary_span, field_span, field_lem,
  align_offset_bounds,
}

>>=-eq-accepted {ℓ κ} :
    {A : Type ℓ} {B : Type κ} (m : Outcome A) (f : A → Outcome B) {b : B}
    → (m >>= f) ≡ accepted b
    → (a : A) × (m ≡ accepted a) × (f a ≡ accepted b)
>>=-eq-accepted (accepted a) f h = (a, refl, h)
>>=-eq-accepted (rejected e) f h = cc

accepted-injective : {A : Type 0} {a b : A} → accepted a ≡ accepted b → a ≡ b
accepted-injective h = cc

>>-eq-accepted {ℓ} :
    {B : Type ℓ} (m : Outcome (Unit {0})) (k : Outcome B) {b : B}
    → (m >> k) ≡ accepted b
    → k ≡ accepted b
>>-eq-accepted (accepted u) k h = h
>>-eq-accepted (rejected e) k h = cc

-- The size holds all bits, and is a multiple of the largest alignment.
finalize_lem :
    (c : LayoutCursor) (size : ℕ)
    → finalize_layout_size c false ≡ accepted size
    → c.bit_offset ≤ size * 8
unfolding finalize_layout_size
finalize_lem c size h = ground (arith, align_offset_bounds ((c.bit_offset + 7) / 8) c.max_align)

integral_size : (heap : Heap) (t : CType) → is_integral t ≡ true → 0 < get_size heap t
unfolding is_integral get_size
integral_size heap (primitive q k) h = ground arith
integral_size heap (void q) h = cc
integral_size heap (pointer q t) h = cc
integral_size heap (function q t a v) h = cc
integral_size heap (array q t p) h = cc
integral_size heap (record_body q i) h = cc

unit_bits_lem :
    (heap : Heap) (t : CType) (width : ℕ) (name : String) (b : ℕ)
    → bit_field_unit_bits heap t width name ≡ accepted b
    → (b ≡ get_size heap t * 8) × (is_integral t ≡ true) × (width ≤ b)
unfolding bit_field_unit_bits
unit_bits_lem heap t width name b h = ground arith

-- What the loop over a structure's members keeps.
record Inv (heap : Heap) (c : LayoutCursor) : Type 0 where
  spans : Spans heap 0 c.members c.bit_offset
  positive : 0 < c.max_align

field-Inv :
    (heap : Heap) (spec : MemberSpec) (width align : ℕ) (c d : LayoutCursor)
    → (bit_field_unit_bits heap spec.spec_type width spec.name >>= λ type_bits.
        layout_bit_field_struct_member heap spec.name spec.spec_type width type_bits align c)
      ≡ accepted d
    → Inv heap c
    → Inv heap d
field-Inv heap spec width align c d h inv =
    let (bits, checked, laid) = >>=-eq-accepted _ _ h in
    let (e, integral, _) = unit_bits_lem heap spec.spec_type width spec.name bits checked in
    let fields =
      field_lem heap spec.name spec.spec_type width align c d
        (integral_size heap spec.spec_type integral) (rw e at laid) in
    record {
      spans = field_span heap spec.name spec.spec_type width align c d fields inv.spans;
      positive = rw fields.same_align inv.positive;
    }

ordinary-Inv :
    (heap : Heap) (spec : MemberSpec) (align : ℕ) (c d : LayoutCursor)
    → layout_ordinary_struct_member heap spec.name spec.spec_type align c ≡ accepted d
    → Inv heap c
    → Inv heap d
ordinary-Inv heap spec align c d h inv = record {
  spans = ordinary_span heap spec.name spec.spec_type align c d h inv.spans;
  positive = rw (ordinary_lem heap spec.name spec.spec_type align c d h) inv.positive;
}

place_member-Inv :
    (heap : Heap) (fuel : ℕ) (packed : Bool) (spec : MemberSpec) (c d : LayoutCursor)
    → place_member heap fuel false packed spec c ≡ accepted d
    → Inv heap c
    → Inv heap d
unfolding place_member
place_member-Inv heap fuel packed spec c d h inv = elim (Option-cases spec.bit_width) [
  | inl e ↦ ordinary-Inv heap spec _ c d (rw (e, place_member) at h) inv
  | inr (width, e) ↦ field-Inv heap spec width _ c d (rw (e, place_member) at h) inv
]

raise_align-Inv :
    (heap : Heap) (align : ℕ) (c : LayoutCursor) → Inv heap c → Inv heap (raise_align align c)
raise_align-Inv heap align c inv = record {
  spans = inv.spans;
  positive = (let p = inv.positive in ground arith);
}

layout_member-Inv :
    (heap : Heap) (fuel : ℕ) (packed last : Bool) (spec : MemberSpec) (c d : LayoutCursor)
    → layout_member heap fuel false packed last spec c ≡ accepted d
    → Inv heap c
    → Inv heap d
unfolding layout_member
layout_member-Inv heap fuel packed last spec c d h inv =
    let t = spec.spec_type in
    let align = member_align heap fuel false packed t in
    let place = place_member heap fuel false packed spec (raise_align align c) in
    let unique = unique_member_name_error c spec.name in
    let sized = array_type_error heap t in
    let h1 =
      >>-eq-accepted (complete_member_error heap t (is_flexible heap fuel false packed last t c))
        (sized >> (unique >> place)) h in
    let h2 = >>-eq-accepted sized (unique >> place) h1 in
    place_member-Inv heap fuel packed spec (raise_align align c) d (>>-eq-accepted unique place h2)
      (raise_align-Inv heap align c inv)

layout_members-Inv :
    (heap : Heap) (fuel : ℕ) (packed : Bool) (specs : List MemberSpec) (c d : LayoutCursor)
    → layout_members heap fuel false packed specs c ≡ accepted d
    → Inv heap c
    → Inv heap d
unfolding layout_members
layout_members-Inv heap fuel packed [] c d h inv = subst (Inv heap) (accepted-injective h) inv
layout_members-Inv heap fuel packed (spec ∷ specs) c d h inv =
    let (e, one, rest) =
      >>=-eq-accepted (layout_member heap fuel false packed (no_items specs) spec c)
        (λ n. layout_members heap fuel false packed specs n) h in
    layout_members-Inv heap fuel packed specs e d rest
      (layout_member-Inv heap fuel packed (no_items specs) spec c e one inv)

-- The members of a completed structure, packed or not, lie in order: each starts, to the bit, where
-- the one before ends or later, and the last ends within the structure's size.
pub structure-Spans :
    (heap : Heap) (fuel : ℕ) (packed : Bool) (specs : List MemberSpec) (body : StructBody)
    → layout_record_members heap fuel specs false packed ≡ accepted body
    → Spans heap 0 body.members (body.size * 8)
unfolding layout_record_members
structure-Spans heap fuel packed specs body h =
    let (c, laid, finish) =
      >>=-eq-accepted (layout_members heap fuel false packed specs start_cursor) _ h in
    let (size, sized, e) = >>=-eq-accepted (finalize_layout_size c false) _ finish in
    let inv = layout_members-Inv heap fuel packed specs start_cursor c laid start-Inv in
    subst (λ b. Spans heap 0 b.members (b.size * 8)) (accepted-injective e)
      (Spans-weaken inv.spans (finalize_lem c size sized))
  where
    start-Inv : Inv heap start_cursor
    start-Inv = record { spans = done (omega arith); positive = omega arith }
