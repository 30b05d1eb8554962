-- ===== src/Types/Layout/Order.antt =====
-- src/types/TypeLayout.cpp: the members of a structure lie in order, apart, aligned and within it.
use Prim.Native.String.{String}
use native.Mathlib.Nat.{mod-lt, mod-add-div'}
use trans.Prelude.{
  ℕ, ◌+◌, ◌*◌, ◌/◌, ◌%◌, ◌≤◌, ◌<◌, ◌≡◌, Option, none, some, List, [], ◌∷◌, ◌++◌, ◌==◌, arith, inl,
  inr, ◌⊎◌, Bool-cases,
}
use trans.Types.CType.{CType, Heap, Member, get_size}
use trans.Types.Layout.{
  accepted, LayoutCursor, plain_member, make_bit_field, align_offset, bit_field_start,
  layout_ordinary_struct_member, layout_bit_field_struct_member,
}

-- The bits of a member: where they start, and where they end.
abbrev pub bit_start : Member → ℕ
bit_start m = m.offset_bytes * 8 + (elim m.bit_field [ none ↦ 0 | some b ↦ b.shift ])

abbrev pub type_bits : Heap → Option CType → ℕ
type_bits heap none = 0
type_bits heap (some t) = get_size heap t * 8

abbrev pub bit_end : Heap → Member → ℕ
bit_end heap m =
    bit_start m + (elim m.bit_field [ none ↦ type_bits heap m.member_type | some b ↦ b.width ])

-- The members lie in order between two bits: each starts where the one before ends, or later.
pub data Spans (heap : Heap) : ℕ → List Member → ℕ → Type 0 where
  done : {from stop : ℕ} → from ≤ stop → Spans heap from [] stop
  next :
      {from stop : ℕ} {m : Member} {ms : List Member}
      → from ≤ bit_start m
      → Spans heap (bit_end heap m) ms stop
      → Spans heap from (m ∷ ms) stop

Spans-append :
    {heap : Heap} {from stop last : ℕ} {ms : List Member} (m : Member)
    → Spans heap from ms stop
    → stop ≤ bit_start m
    → bit_end heap m ≤ last
    → Spans heap from (ms ++ m ∷ []) last
Spans-append m (done h) p q = next (omega arith) (done q)
Spans-append m (next h s) p q = next h (Spans-append m s p q)

pub Spans-weaken :
    {heap : Heap} {from stop last : ℕ} {ms : List Member}
    → Spans heap from ms stop
    → stop ≤ last
    → Spans heap from ms last
Spans-weaken (done h) p = done (omega arith)
Spans-weaken (next h s) p = next h (Spans-weaken s p)

pub align_offset_bounds : (offset align : ℕ) → offset ≤ align_offset offset align
unfolding align_offset
align_offset_bounds offset align = grind (arith, mod-lt)

pub ordinary_lem :
    (heap : Heap) (name : String) (t : CType) (align : ℕ) (c d : LayoutCursor)
    → layout_ordinary_struct_member heap name t align c ≡ accepted d
    → d ≡ record c {
      members = c.members ++ plain_member name t (align_offset ((c.bit_offset + 7) / 8) align) ∷ [];
      bit_offset = (align_offset ((c.bit_offset + 7) / 8) align + get_size heap t) * 8;
    }
unfolding layout_ordinary_struct_member
ordinary_lem heap name t align c d h = ground arith

-- What a bit-field of positive width becomes.
abbrev pub field_start : Heap → CType → ℕ → ℕ → LayoutCursor → ℕ
field_start heap t width align c = bit_field_start c.bit_offset width (get_size heap t * 8) align

abbrev pub field_member : Heap → String → CType → ℕ → ℕ → LayoutCursor → Member
field_member heap name t width align c =
    let unit_bits = get_size heap t * 8 in
    let start = field_start heap t width align c in
    record (plain_member name t (start / unit_bits * get_size heap t)) {
      bit_field = some (make_bit_field t width (start % unit_bits));
    }

-- A bit-field appends at most its member, and moves the offset to its end.
pub record Fields (heap : Heap) (name : String) (t : CType) (width align : ℕ) (c d : LayoutCursor)
    : Type 0 where
  pub same_align : d.max_align ≡ c.max_align
  pub moved :
      (width ≡ 0) × (c.bit_offset ≤ d.bit_offset) × (d.members ≡ c.members)
      ⊎ (0 < width)
        × (d.bit_offset ≡ field_start heap t width align c + width)
        × ((d.members ≡ c.members)
            ⊎ (d.members ≡ c.members ++ field_member heap name t width align c ∷ []))

pub field_lem :
    (heap : Heap) (name : String) (t : CType) (width align : ℕ) (c d : LayoutCursor)
    → 0 < get_size heap t
    → layout_bit_field_struct_member heap name t width (get_size heap t * 8) align c ≡ accepted d
    → Fields heap name t width align c d
unfolding layout_bit_field_struct_member
field_lem heap name t width align c d s h = elim (Bool-cases (width == 0)) [
  | inl e ↦ ground (arith, align_offset_bounds c.bit_offset (align * 8))
  | inr e ↦ ground arith
]

unit_split : (b s : ℕ) → b / (s * 8) * s * 8 + b % (s * 8) ≡ b
unit_split b s = omega (arith, mod-add-div' b (s * 8))

bit_field_start_from : (b w u a : ℕ) → b ≤ bit_field_start b w u a
unfolding bit_field_start
bit_field_start_from b w u a = ground (arith, align_offset_bounds b (a * 8))

-- A start that is not before the offset; and the container and the shift name the bit of the start.
field_start_lem :
    (heap : Heap) (t : CType) (width align : ℕ) (c : LayoutCursor) (name : String)
    → (c.bit_offset ≤ field_start heap t width align c)
      × (bit_start (field_member heap name t width align c) ≡ field_start heap t width align c)
      × (bit_end heap (field_member heap name t width align c)
          ≡ field_start heap t width align c + width)
unfolding make_bit_field
field_start_lem heap t width align c name =
    let start = field_start heap t width align c in
    let e = unit_split start (get_size heap t) in
    (bit_field_start_from c.bit_offset width (get_size heap t * 8) align, e, omega (arith, e))

pub ordinary_span :
    (heap : Heap) (name : String) (t : CType) (align : ℕ) (c d : LayoutCursor)
    → layout_ordinary_struct_member heap name t align c ≡ accepted d
    → Spans heap 0 c.members c.bit_offset
    → Spans heap 0 d.members d.bit_offset
ordinary_span heap name t align c d h s =
    let e = ordinary_lem heap name t align c d h in
    let b = align_offset_bounds ((c.bit_offset + 7) / 8) align in
    rw e (Spans-append _ s (omega arith) (omega arith))

pub field_span :
    (heap : Heap) (name : String) (t : CType) (width align : ℕ) (c d : LayoutCursor)
    → Fields heap name t width align c d
    → Spans heap 0 c.members c.bit_offset
    → Spans heap 0 d.members d.bit_offset
field_span heap name t width align c d h s = elim h.moved [
  | inl (_, le, same) ↦ rw same (Spans-weaken s le)
  | inr (_, moved, inl same) ↦
      rw same (Spans-weaken s (omega (arith, (field_start_lem heap t width align c name).0)))
  | inr (_, moved, inr more) ↦
      let (from, begins, ends) = field_start_lem heap t width align c name in
      rw more (Spans-append _ s (omega (arith, from, begins)) (omega (arith, ends, moved)))
]
