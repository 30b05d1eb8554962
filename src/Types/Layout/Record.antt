-- ===== src/Types/Layout/Record.antt =====
-- src/types/TypeLayout.cpp and TypeRecords.cpp: the loop over the members of a record, and the
-- completion of a shared body.
use trans.Prelude.{
  ℕ, Bool, true, false, not, none, some, List, [], ◌∷◌, ltb, ◌==◌, ◌&&◌, ◌||◌, if◌then◌else◌,
}
use trans.Types.CType.{
  CType, void, record_body, Heap, Member, StructBody, is_incomplete_array, unqualified, get_members,
  is_union, is_transparent_union,
}
use trans.Types.Query.{is_tentative_record, has_runtime_size}
use trans.Types.Layout.{
  type_alignment, not_a_record, Outcome, accepted, rejected, ◌>>=◌, ◌>>◌, array_type_error,
  LayoutCursor, MemberSpec, unique_member_name_error, complete_member_error, bit_field_unit_bits,
  layout_ordinary_union_member, layout_bit_field_union_member, layout_ordinary_struct_member,
  layout_bit_field_struct_member, finalize_layout_size,
}

abbrev pub no_items {ℓ} : {A : Type ℓ} → List A → Bool
no_items [] = true
no_items (x ∷ xs) = false

abbrev pub raise_align : ℕ → LayoutCursor → LayoutCursor
raise_align align cursor = record cursor {
  max_align = if ltb cursor.max_align align then align else cursor.max_align;
}

module _ (heap : Heap) (fuel : ℕ) (as_union packed : Bool) where
  -- The alignment that a member asks for.
  unfoldable pub member_align : CType → ℕ
  unfolding type_alignment
  member_align t = if packed then 1 else type_alignment heap fuel t

  unfoldable pub place_member : MemberSpec → LayoutCursor → Outcome LayoutCursor
  place_member spec cursor = elim spec.bit_width [
    | some width ↦ bit_field_unit_bits heap spec.spec_type width spec.name >>= λ type_bits.
        if as_union
        then accepted (layout_bit_field_union_member heap spec.name spec.spec_type width cursor)
        else layout_bit_field_struct_member heap spec.name spec.spec_type width type_bits
            (member_align spec.spec_type) cursor
    | none ↦
        if as_union
        then accepted (layout_ordinary_union_member heap spec.name spec.spec_type cursor)
        else layout_ordinary_struct_member heap spec.name spec.spec_type
            (member_align spec.spec_type) cursor
  ]

  -- Whether an array without a bound may stand here; `is_last` is `i + 1 == memberCount`.
  unfoldable pub is_flexible : Bool → CType → LayoutCursor → Bool
  unfolding is_incomplete_array
  is_flexible is_last t cursor =
      not as_union && (is_last && (not (no_items cursor.members) && is_incomplete_array t))

  -- The body of the loop.
  unfoldable pub layout_member : Bool → MemberSpec → LayoutCursor → Outcome LayoutCursor
  layout_member is_last spec cursor = do
    complete_member_error heap spec.spec_type (is_flexible is_last spec.spec_type cursor)
    array_type_error heap spec.spec_type
    unique_member_name_error cursor spec.name
    place_member spec (raise_align (member_align spec.spec_type) cursor)

  unfoldable pub layout_members : List MemberSpec → LayoutCursor → Outcome LayoutCursor
  layout_members [] cursor = accepted cursor
  layout_members (spec ∷ specs) cursor =
      layout_member (no_items specs) spec cursor >>= λ next. layout_members specs next

-- Whether a member leaves its record incomplete.
unfoldable pub leaves_incomplete : Heap → Member → Bool
unfolding has_runtime_size is_tentative_record
leaves_incomplete heap m = elim m.member_type [
  | none ↦ false
  | some t ↦ has_runtime_size t || is_tentative_record heap t
]

abbrev pub any_incomplete : Heap → List Member → Bool
any_incomplete heap [] = false
any_incomplete heap (m ∷ ms) = leaves_incomplete heap m || any_incomplete heap ms

abbrev pub start_cursor : LayoutCursor
start_cursor = record { members = []; bit_offset = 0; max_align = 1; max_size = 0 }

unfoldable pub layout_record_members : Heap → ℕ → List MemberSpec → Bool → Bool → Outcome StructBody
layout_record_members heap fuel specs as_union packed = do
  cursor ← layout_members heap fuel as_union packed specs start_cursor
  size ← finalize_layout_size cursor as_union
  accepted (record {
    members = cursor.members;
    size = size;
    complete = not (any_incomplete heap cursor.members);
    is_union = as_union;
    transparent_union = false;
    packed = packed;
  })

abbrev pub update : Heap → ℕ → StructBody → Heap
update heap i body = λ j. if j == i then body else heap j

-- The shared body is replaced only where the layout succeeds.
unfoldable pub complete_record : Heap → ℕ → CType → List MemberSpec → Bool → Bool → Outcome Heap
unfolding layout_record_members
complete_record heap fuel (record_body q i) specs as_union packed =
    layout_record_members heap fuel specs as_union packed >>= λ body. accepted (update heap i body)
complete_record heap fuel _ specs as_union packed = rejected not_a_record

abbrev pub spec_of : Member → MemberSpec
spec_of m = record {
  name = m.name;
  spec_type = elim m.member_type [ none ↦ void unqualified | some t ↦ t ];
  bit_width = elim m.bit_field [ none ↦ none | some b ↦ some b.width ];
}

abbrev pub specs_of : List Member → List MemberSpec
specs_of [] = []
specs_of (m ∷ ms) = spec_of m ∷ specs_of ms

unfoldable pub member_specs : Heap → CType → List MemberSpec
unfolding get_members
member_specs heap t = specs_of (get_members heap t)

-- The mark of a transparent union, on the heap.
unfoldable pub mark_transparent_union : Heap → CType → Heap
mark_transparent_union heap (record_body q i) =
    if (heap i).is_union then update heap i (record (heap i) { transparent_union = true }) else heap
mark_transparent_union heap _ = heap

unfoldable pub relayout_from_member_specs : Heap → ℕ → CType → List MemberSpec → Bool → Outcome Heap
unfolding is_transparent_union is_union complete_record mark_transparent_union
relayout_from_member_specs heap fuel t specs packed =
    complete_record heap fuel t specs (is_union heap t) packed >>= λ heap'.
    accepted (if is_transparent_union heap t then mark_transparent_union heap' t else heap')

unfoldable pub apply_packed : Heap → ℕ → CType → Heap
unfolding relayout_from_member_specs member_specs
apply_packed heap fuel (record_body q i) =
    if (heap i).packed
    then heap
    else if not (heap i).complete
    then update heap i (record (heap i) { packed = true })
    else elim (relayout_from_member_specs heap fuel (record_body q i)
        (member_specs heap (record_body q i)) true) [ accepted heap' ↦ heap' | rejected e ↦ heap ]
apply_packed heap fuel _ = heap
