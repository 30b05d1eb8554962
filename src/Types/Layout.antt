-- ===== src/Types/Layout.antt =====
-- src/types/TypeLayout.cpp, with the alignment of src/types/Type.cpp and the array constraint of
-- TypeConstraint.h: offsets, sizes and bit-fields of structures and unions. Sizes and offsets are
-- numbers: no `int` of the layout is negative, and each is tested against the largest `int`.
pub mod Record
pub mod Alignment
pub mod Largest
pub mod Whole
pub mod Order
use Prim.Native.String.{String}
use text.Mathlib.Text.{◌==◌ as str_eq}
use trans.Prelude.{
  ℕ, zero, suc, ◌+◌, ◌-◌, ◌*◌, ◌/◌, ◌%◌, Bool, true, false, not, Option, none, some, List, [], ◌∷◌,
  ◌++◌, ltb, leb, ◌==◌, ◌&&◌, ◌||◌, if◌then◌else◌,
}
use trans.Types.Primitive.{kind_alignment}
use trans.Types.CType.{
  CType, void, primitive, pointer, function, array, record_body, Heap, BitField, Member, get_size,
  is_incomplete_array, is_variable_array,
}
use trans.Types.Query.{is_integral, is_tentative_record, value_is_signed}
use trans.Types.Expressions.{is_incomplete_object_type, array_byte_size, int_max}

-- The larger of an alignment and a member's, as the loop of `typeAlignment` takes it.
abbrev pub wider : (CType → ℕ) → ℕ → Option CType → ℕ
wider rec align none = align
wider rec align (some t) = if ltb align (rec t) then rec t else align

abbrev pub align_members : (CType → ℕ) → List Member → ℕ → ℕ
align_members rec [] align = align
align_members rec (m ∷ ms) align = align_members rec ms (wider rec align m.member_type)

-- The fuel bounds the nesting of records.
unfoldable pub type_alignment : Heap → ℕ → CType → ℕ
unfolding kind_alignment
type_alignment heap fuel (void q) = 1
type_alignment heap fuel (primitive q k) = if ltb (kind_alignment k) 1 then 1 else kind_alignment k
type_alignment heap fuel (pointer q t) = 8
type_alignment heap fuel (function q t a v) = 1
type_alignment heap fuel (array q t p) = type_alignment heap fuel t
type_alignment heap zero (record_body q i) = 1
type_alignment heap (suc fuel) (record_body q i) =
    if (heap i).packed
    then 1
    else (let align = align_members (type_alignment heap fuel) (heap i).members 1 in
        if ltb align 1 then 1 else align)

pub data LayoutError : Type 0 where
  too_large duplicate_name incomplete_member not_integral zero_width too_wide exceeds_type :
      LayoutError
  array_of_incomplete array_too_large not_a_record : LayoutError

pub data Outcome {ℓ} (A : Type ℓ) : Type ℓ where
  rejected : LayoutError → Outcome A
  accepted : A → Outcome A

infixl 5 ◌>>=◌
abbrev pub ◌>>=◌ {ℓ κ} : {A : Type ℓ} {B : Type κ} → Outcome A → (A → Outcome B) → Outcome B
rejected why >>= next = rejected why
accepted value >>= next = next value

infixl 5 ◌>>◌
abbrev pub ◌>>◌ {ℓ} : {B : Type ℓ} → Outcome (Unit {0}) → Outcome B → Outcome B
rejected why >> next = rejected why
accepted value >> next = next

abbrev pub refuse : Bool → LayoutError → Outcome (Unit {0})
refuse true e = rejected e
refuse false e = accepted tt

unfoldable pub array_layer_error : Heap → CType → Bool → ℕ → Outcome (Unit {0})
unfolding is_incomplete_object_type array_byte_size
array_layer_error heap element check_count count =
    if is_incomplete_object_type heap element
    then rejected array_of_incomplete
    else if not check_count
    then accepted tt
    else elim (array_byte_size heap element count) [
      | none ↦ rejected array_too_large
      | some n ↦ accepted tt
    ]

unfoldable pub array_type_error : Heap → CType → Outcome (Unit {0})
unfolding array_layer_error is_incomplete_array is_variable_array
array_type_error heap (array q t p) =
    let sized = p.complete && not p.is_variable in
    let inner = array_type_error heap t in
    array_layer_error heap t sized (if sized then p.count else 0) >>= λ _. inner
array_type_error heap (pointer q t) = array_type_error heap t
array_type_error heap (function q t a v) = array_type_error heap t
array_type_error heap (void q) = accepted tt
array_type_error heap (primitive q k) = accepted tt
array_type_error heap (record_body q i) = accepted tt

-- `alignUp` of this file, on `long long`.
unfoldable pub align_offset : ℕ → ℕ → ℕ
align_offset offset alignment =
    if leb alignment 1
    then offset
    else (let rem = offset % alignment in if rem == 0 then offset else offset + (alignment - rem))

pub record LayoutCursor : Type 0 where
  pub members : List Member
  pub bit_offset : ℕ
  pub max_align : ℕ
  pub max_size : ℕ

pub record MemberSpec : Type 0 where
  pub name : String
  pub spec_type : CType
  pub bit_width : Option ℕ

unfoldable pub fits_int_error : ℕ → Outcome (Unit {0})
fits_int_error value = refuse (ltb int_max value) too_large

abbrev pub has_name : String → List Member → Bool
has_name name [] = false
has_name name (m ∷ ms) = str_eq m.name name || has_name name ms

unfoldable pub unique_member_name_error : LayoutCursor → String → Outcome (Unit {0})
unique_member_name_error cursor name =
    refuse (not (str_eq name "") && has_name name cursor.members) duplicate_name

unfoldable pub complete_member_error : Heap → CType → Bool → Outcome (Unit {0})
unfolding is_tentative_record is_incomplete_object_type
complete_member_error heap t flexible_array =
    if is_tentative_record heap t
    then accepted tt
    else refuse (is_incomplete_object_type heap t && not flexible_array) incomplete_member

-- The width of the declared type in bits, if the bit-field may have this width.
unfoldable pub bit_field_unit_bits : Heap → CType → ℕ → String → Outcome ℕ
unfolding is_integral get_size
bit_field_unit_bits heap t width name = do
  refuse (not (is_integral t)) not_integral
  refuse (width == 0 && not (str_eq name "")) zero_width
  let type_bits = get_size heap t * 8
  refuse (ltb 8 (get_size heap t) || ltb 64 width) too_wide
  refuse (ltb type_bits width) exceeds_type
  accepted type_bits

unfoldable pub make_bit_field : CType → ℕ → ℕ → BitField
unfolding value_is_signed
make_bit_field declared width shift = record {
  width = width;
  shift = shift;
  is_signed = value_is_signed declared;
}

abbrev pub plain_member : String → CType → ℕ → Member
plain_member name t offset = record {
  name = name;
  member_type = some t;
  offset_bytes = offset;
  bit_field = none;
}

unfoldable pub note_union_member_size : Heap → CType → LayoutCursor → LayoutCursor
unfolding get_size
note_union_member_size heap t cursor =
    if ltb cursor.max_size (get_size heap t)
    then record cursor { max_size = get_size heap t }
    else cursor

unfoldable pub layout_ordinary_union_member : Heap → String → CType → LayoutCursor → LayoutCursor
unfolding note_union_member_size
layout_ordinary_union_member heap name t cursor =
    note_union_member_size heap t
      (record cursor { members = cursor.members ++ plain_member name t 0 ∷ [] })

unfoldable pub layout_bit_field_union_member :
    Heap → String → CType → ℕ → LayoutCursor → LayoutCursor
unfolding note_union_member_size make_bit_field
layout_bit_field_union_member heap name t width cursor = note_union_member_size heap t (
    if ltb 0 width && not (str_eq name "")
    then record cursor {
      members =
          cursor.members
          ++ record (plain_member name t 0) { bit_field = some (make_bit_field t width 0) } ∷ [];
    }
    else cursor)

unfoldable pub layout_ordinary_struct_member :
    Heap → String → CType → ℕ → LayoutCursor → Outcome LayoutCursor
unfolding fits_int_error
layout_ordinary_struct_member heap name t align cursor = do
  let offset = align_offset ((cursor.bit_offset + 7) / 8) align
  fits_int_error offset
  let stop = offset + get_size heap t
  fits_int_error stop
  accepted (record cursor {
    members = cursor.members ++ plain_member name t offset ∷ [];
    bit_offset = stop * 8;
  })

-- Where a bit-field of positive width starts.
unfoldable pub bit_field_start : ℕ → ℕ → ℕ → ℕ → ℕ
bit_field_start bit_offset width unit_bits align =
    let excess = bit_offset % unit_bits in
    if ltb unit_bits (excess + width) then align_offset bit_offset (align * 8) else bit_offset

unfoldable pub layout_bit_field_struct_member :
    Heap → String → CType → ℕ → ℕ → ℕ → LayoutCursor → Outcome LayoutCursor
unfolding fits_int_error
layout_bit_field_struct_member heap name t width type_bits align cursor =
    if width == 0
    then (let align_bits = align * 8 in
        if ltb 0 align_bits && not (cursor.bit_offset % align_bits == 0)
        then accepted (record cursor { bit_offset = align_offset cursor.bit_offset align_bits })
        else accepted cursor)
    else (let unit_bits = if ltb 0 type_bits then type_bits else 8 in
        let start = bit_field_start cursor.bit_offset width unit_bits align in
        let container = start / unit_bits * get_size heap t in
        let shift = start % unit_bits in
        let field = record (plain_member name t container) {
          bit_field = some (make_bit_field t width shift);
        } in
        fits_int_error start
        >> accepted (record cursor {
          members = if not (str_eq name "") then cursor.members ++ field ∷ [] else cursor.members;
          bit_offset = start + width;
        }))

unfoldable pub finalize_layout_size : LayoutCursor → Bool → Outcome ℕ
unfolding fits_int_error
finalize_layout_size cursor as_union =
    let bytes =
      align_offset (if as_union then cursor.max_size else (cursor.bit_offset + 7) / 8)
        cursor.max_align in
    fits_int_error bytes >> accepted bytes
