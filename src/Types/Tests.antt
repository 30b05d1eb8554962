-- ===== src/Types/Tests.antt =====
-- The theorems about src/types at concrete types, records and heaps.
use trans.Prelude.{
  ltb, ◌&&◌, zero, suc, ◌*◌, ◌≤◌, ◌<◌, ◌≡◌, refl, true, false, none, some, List, [], ◌∷◌, ◌||◌, ◌⊎◌,
  arith,
}
use trans.Abi.Words.Align.{IsAlignment}
use trans.Types.Primitive.{
  signed_char, signed_integer, signed_long, complex_float, double, kind_is_complex, kind_alignment,
  kind_size, kind_is_signed, kind_is_floating,
}
use trans.Types.CType.{
  CType, primitive, pointer, record_body, array, unqualified, Heap, StructBody, get_size,
  is_incomplete_array, is_void, is_function, is_incomplete_record, is_record, is_complete_record,
}
use trans.Types.Query.{
  usual_arithmetic_result, integer_promote, is_integral, value_is_signed, is_tentative_record,
  has_runtime_size,
}
use trans.Types.Query.Arithmetic.{
  usual_arithmetic_lem, integer_promote_lem, conversion_kind, conversion_rank, larger,
}
use trans.Types.Expressions.{is_incomplete_object_type}
use trans.Types.Layout.{
  layout_ordinary_struct_member, layout_bit_field_struct_member, finalize_layout_size,
  bit_field_unit_bits, complete_member_error, array_type_error, unique_member_name_error,
  fits_int_error, align_offset, bit_field_start, make_bit_field, MemberSpec, accepted,
  type_alignment, plain_member,
}
use trans.Types.Layout.Record.{
  layout_record_members, layout_members, layout_member, place_member, member_align, is_flexible,
  leaves_incomplete,
}
use trans.Types.Layout.Order.{Spans}
use trans.Types.Layout.Alignment.{type_alignment-IsAlignment}
use trans.Types.Layout.Largest.{IsLargest, type_alignment-IsLargest}
use trans.Types.Layout.Whole.{structure-Spans}
use trans.Types.Classify.{
  classify, classify_into, classify_members, classify_member, classify_bit_field, classify_bytes,
  classify_primitive, classify_real, classified, extension_of,
}
use trans.Types.Classify.Bytes.{in_first, in_second, integer_bytes}
use trans.Types.Classify.Integers.{classify-integers}
use trans.Abi.Classes.{◌=c◌, integer, merge, post_merge}
use trans.Types.GenericSelection.{GenericArmView, select_generic_association}
use trans.Types.GenericSelection.Choice.{
  prescribed, matching, first_default, select_generic_association_lem,
}
use trans.Types.Classify.Laws.{IsClassified, classify-IsClassified, classify_large}

abbrev no_body : StructBody
no_body = record {
  members = [];
  size = 0;
  complete = false;
  is_union = false;
  transparent_union = false;
  packed = false;
}

abbrev no_records : Heap
no_records i = no_body

usual_arithmetic_lem_example :
    usual_arithmetic_result no_records
      (primitive unqualified complex_float)
      (primitive unqualified double)
    ≡ primitive unqualified (
        conversion_kind
          (kind_is_complex complex_float || kind_is_complex double)
          (larger (conversion_rank complex_float) (conversion_rank double)))
usual_arithmetic_lem_example = usual_arithmetic_lem no_records complex_float double

abbrev char_type : CType
char_type = primitive unqualified signed_char

abbrev int_type : CType
int_type = primitive unqualified signed_integer

abbrev long_type : CType
long_type = primitive unqualified signed_long

integer_promote_lem_example :
    (integer_promote no_records (integer_promote no_records char_type)
      ≡ integer_promote no_records char_type)
    × (get_size no_records char_type ≤ get_size no_records (integer_promote no_records char_type))
    × (4 ≤ get_size no_records (integer_promote no_records char_type))
unfolding is_integral
integer_promote_lem_example = integer_promote_lem no_records char_type char_is_integral
  where
    char_is_integral : is_integral char_type ≡ true
    char_is_integral = refl

-- struct { char c; int low : 3; int high : 30; long l[2]; }
abbrev specs : List MemberSpec
specs =
    record { name = "c"; spec_type = char_type; bit_width = none }
    ∷ record { name = "low"; spec_type = int_type; bit_width = some 3 }
    ∷ record { name = "high"; spec_type = int_type; bit_width = some 30 }
    ∷ record { name = "p"; spec_type = pointer unqualified int_type; bit_width = none }
    ∷ []

abbrev laid_out : StructBody
laid_out = record {
  members =
      plain_member "c" char_type 0
      ∷ record (plain_member "low" int_type 0) {
        bit_field = some (record { width = 3; shift = 8; is_signed = true });
      }
      ∷ record (plain_member "high" int_type 4) {
        bit_field = some (record { width = 30; shift = 0; is_signed = true });
      }
      ∷ plain_member "p" (pointer unqualified int_type) 8
      ∷ [];
  size = 16;
  complete = true;
  is_union = false;
  transparent_union = false;
  packed = false;
}

laid : layout_record_members no_records 0 specs false false ≡ accepted laid_out
unfolding layout_record_members layout_members layout_member place_member member_align is_flexible
    layout_ordinary_struct_member layout_bit_field_struct_member finalize_layout_size
    bit_field_unit_bits complete_member_error array_type_error unique_member_name_error
    fits_int_error align_offset bit_field_start make_bit_field type_alignment kind_alignment
    get_size kind_size is_integral value_is_signed kind_is_signed is_tentative_record
    is_incomplete_object_type is_incomplete_array is_void is_function is_incomplete_record is_record
    is_complete_record leaves_incomplete has_runtime_size
laid = refl

structure-Spans_example : Spans no_records 0 laid_out.members (laid_out.size * 8)
structure-Spans_example = structure-Spans no_records 0 false specs laid_out laid

-- A heap whose only record, 0, is the structure above.
abbrev one_record : Heap
one_record i = laid_out

abbrev the_record : CType
the_record = record_body unqualified 0

type_alignment-IsAlignment_example : IsAlignment (type_alignment one_record 1 the_record)
type_alignment-IsAlignment_example = type_alignment-IsAlignment one_record 1 the_record

type_alignment-IsLargest_example :
    (((one_record 0).packed ≡ true) × (type_alignment one_record 1 the_record ≡ 1))
    ⊎ (((one_record 0).packed ≡ false)
        × IsLargest
            (type_alignment one_record 1)
            (one_record 0).members
            (type_alignment one_record 1 the_record))
type_alignment-IsLargest_example =
    type_alignment-IsLargest one_record 1 unqualified 0 (tt, (tt, (tt, (tt, tt))))

classify-IsClassified_example : IsClassified (classify one_record 1 the_record)
classify-IsClassified_example = classify-IsClassified one_record 1 the_record

in_registers : (classify one_record 1 the_record).in_memory ≡ false
unfolding classify classify_into classify_members classify_member classify_bit_field classify_bytes
    classify_primitive classify_real merge post_merge classified extension_of get_size
    type_alignment kind_alignment kind_size kind_is_floating kind_is_complex
in_registers = refl

classify-integers_example :
    (((classify one_record 1 the_record).eightbyte0 =c integer)
      ≡ in_first (integer_bytes one_record 1 the_record 0))
    × (((classify one_record 1 the_record).eightbyte1 =c integer) ≡ (
        ltb 0 (classify one_record 1 the_record).count
        && in_second (integer_bytes one_record 1 the_record 0)))
classify-integers_example = classify-integers one_record 1 the_record in_registers

-- struct { char c; struct __attribute__((packed)) { char *p; } s; }, the inner structure being 0.
abbrev misaligned : Heap
misaligned zero = record no_body {
  members = plain_member "p" (pointer unqualified char_type) 0 ∷ [];
  size = 8;
  complete = true;
  packed = true;
}
misaligned (suc i) = record no_body {
  members = plain_member "c" char_type 0 ∷ plain_member "s" (record_body unqualified 0) 1 ∷ [];
  size = 9;
  complete = true;
}

-- The pointer is not aligned, and its last byte, the ninth of the nine, is in no eightbyte.
ninth_byte : (classify misaligned 2 (record_body unqualified 1)).count ≡ 1
unfolding classify classify_into classify_members classify_member classify_bit_field classify_bytes
    classify_primitive classify_real merge post_merge classified extension_of get_size
    type_alignment kind_alignment kind_size kind_is_floating kind_is_complex
ninth_byte = refl

-- An array of three of these: 48 bytes.
abbrev three_records : CType
three_records =
    array unqualified the_record
      (record { count = 3; size_bytes = 48; complete = true; is_variable = false; bound = none })

classify_large_example : (classify one_record 1 three_records).in_memory ≡ true
unfolding get_size
classify_large_example = classify_large one_record 1 three_records refl is_large
  where
    is_large : 16 < get_size one_record three_records
    is_large = omega arith

-- _Generic(p, default: 0, char *: 1, int *: 2)
abbrev pointer_to_int : CType
pointer_to_int = pointer unqualified int_type

abbrev arms : List GenericArmView
arms =
    record { is_default = true; arm_type = none }
    ∷ record { is_default = false; arm_type = some (pointer unqualified char_type) }
    ∷ record { is_default = false; arm_type = some (pointer unqualified int_type) }
    ∷ []

select_generic_association_lem_example :
    select_generic_association pointer_to_int arms
    ≡ prescribed (matching pointer_to_int arms 0) (first_default arms 0)
select_generic_association_lem_example = select_generic_association_lem pointer_to_int arms
