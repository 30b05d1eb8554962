-- ===== src/Types/Classify.antt =====
-- src/types/SysVClassify.cpp: the classification of a type for calls. Offsets are numbers. The fuel
-- bounds the nesting of records, as for alignments.
pub mod Laws
pub mod Bytes
pub mod Integers
pub mod Fuel
use trans.Prelude.{
  ℕ, zero, suc, ◌+◌, ◌-◌, ◌*◌, ◌/◌, ◌%◌, Bool, true, false, not, Option, none, some, List, [], ◌∷◌,
  ltb, ◌==◌, ◌&&◌, ◌||◌, if◌then◌else◌,
}
use trans.Abi.Classes.{
  Class, no_class, integer, sse, x87, x87_up, complex_x87, memory, ◌=c◌, merge, post_merge,
  GprExtend, Classification, unclassified,
}
use trans.Types.Primitive.{
  PrimitiveKind, float, double, long_double, complex_float, complex_double, complex_long_double,
  kind_size, kind_is_signed, kind_is_floating, kind_is_complex, ◌=k◌,
}
use trans.Types.CType.{
  CType, void, primitive, pointer, function, array, record_body, Heap, Member, BitField, get_size,
}
use trans.Types.Layout.{type_alignment}

-- The classes of the two eightbytes, (lo, hi).
abbrev pub Eightbytes : Type 0
Eightbytes = Class × Class

abbrev pub max_classify_bytes : ℕ
max_classify_bytes = 8 * 8

abbrev pub slot_at : ℕ → Class → Eightbytes
slot_at offset k = if ltb offset 8 then (k, no_class) else (no_class, k)

abbrev pub merge_both : Eightbytes → Eightbytes → Eightbytes
merge_both a b = (merge a.0 b.0, merge a.1 b.1)

-- The case of a primitive that is neither complex nor `long double`.
unfoldable pub classify_real : PrimitiveKind → ℕ → Eightbytes
unfolding kind_is_floating kind_size
classify_real k offset = if kind_is_floating k then slot_at offset sse else (
  if ltb offset 8 then integer else no_class,
  if ltb 8 (offset + kind_size k) then integer else no_class,
)

-- `correspondingReal` on the two complex kinds that come here.
abbrev pub real_of : PrimitiveKind → PrimitiveKind
real_of complex_float = float
real_of complex_double = double
real_of k = k

unfoldable pub classify_primitive : PrimitiveKind → ℕ → Eightbytes
unfolding classify_real kind_is_complex kind_size merge
classify_primitive k offset =
    if k =k long_double
    then (x87, x87_up)
    else if k =k complex_long_double
    then (complex_x87, no_class)
    else if kind_is_complex k
    then merge_both (classify_real (real_of k) offset)
        (classify_real (real_of k) (offset + kind_size (real_of k)))
    else classify_real k offset

-- The loop over the elements of an array, from the one at `offset`; it ends early at MEMORY.
unfoldable pub classify_elements : (ℕ → Eightbytes) → ℕ → ℕ → ℕ → Eightbytes → Eightbytes
unfolding merge
classify_elements rec stride offset zero acc = acc
classify_elements rec stride offset (suc n) acc =
    let acc' = merge_both acc (rec offset) in
    let rest = classify_elements rec stride (offset + stride) n acc' in
    if acc'.0 =c memory then acc' else rest

-- The loop over the bytes of a bit-field: `n` of them from byte `b`.
unfoldable pub classify_bytes : ℕ → ℕ → Eightbytes → Eightbytes
unfolding merge
classify_bytes b zero acc = acc
classify_bytes b (suc n) acc =
    classify_bytes (b + 1) n
      (if ltb b 8 then (merge acc.0 integer, acc.1) else (acc.0, merge acc.1 integer))

unfoldable pub classify_bit_field : ℕ → Member → BitField → Eightbytes → Eightbytes
classify_bit_field base m bits acc =
    let start = m.offset_bytes + bits.shift / 8 in
    let stop = m.offset_bytes + (bits.shift + bits.width - 1) / 8 in
    classify_bytes (base + start) (stop + 1 - start) acc

-- The body of the loop over the members of a record at `base`: the classes after the member, and
-- whether the function returns there. `align` and `rec` are the calls on the member's type.
unfoldable pub classify_member :
    (CType → ℕ)
    → (CType → ℕ → Eightbytes)
    → ℕ
    → Member
    → Option CType
    → Option BitField
    → Eightbytes
    → Eightbytes × Bool
classify_member align rec base m none bits acc = (acc, false)
classify_member align rec base m (some t) (some bits) acc =
    (classify_bit_field base m bits acc, false)
classify_member align rec base m (some t) none acc =
    let acc' = merge_both acc (rec t (base + m.offset_bytes)) in
    if ltb 1 (align t) && not (m.offset_bytes % align t == 0)
    then ((memory, acc.1), true)
    else (acc', acc'.0 =c memory)

unfoldable pub classify_members :
    (CType → ℕ) → (CType → ℕ → Eightbytes) → ℕ → List Member → Eightbytes → Eightbytes
classify_members align rec base [] acc = acc
classify_members align rec base (m ∷ ms) acc =
    let one = classify_member align rec base m m.member_type m.bit_field acc in
    let rest = classify_members align rec base ms one.0 in if one.1 then one.0 else rest

unfoldable pub classify_into : Heap → ℕ → CType → ℕ → Eightbytes
classify_into heap fuel (void q) offset = (no_class, no_class)
classify_into heap fuel (pointer q t) offset = slot_at offset integer
classify_into heap fuel (function q t a v) offset = slot_at offset integer
classify_into heap fuel (primitive q k) offset = classify_primitive k offset
classify_into heap fuel (array q t p) offset =
    let elements =
      classify_elements (classify_into heap fuel t) (get_size heap t) offset p.count
        (no_class, no_class) in
    if not p.complete
    then (no_class, no_class)
    else if ltb max_classify_bytes p.size_bytes
    then (memory, no_class)
    else elements
classify_into heap zero (record_body q i) offset = (no_class, no_class)
classify_into heap (suc fuel) (record_body q i) offset =
    if not (heap i).complete
    then (no_class, no_class)
    else if ltb max_classify_bytes (heap i).size
    then (memory, no_class)
    else classify_members (type_alignment heap fuel) (classify_into heap fuel) offset
        (heap i).members (no_class, no_class)

-- The extension of a narrow integer in a register.
unfoldable pub extension_of : Heap → CType → GprExtend
unfolding kind_is_floating kind_is_complex kind_size kind_is_signed
extension_of heap (primitive q k) =
    if not (kind_is_floating k)
      && (not (kind_is_complex k) && (kind_size k == 1 || (kind_size k == 2 || kind_size k == 4)))
    then if kind_is_signed k then GprExtend.sign else GprExtend.zero_extend
    else GprExtend.none
extension_of heap _ = GprExtend.none

-- The result built from the merged classes.
unfoldable pub classified : ℕ → GprExtend → Eightbytes → Classification
classified align extend (lo, hi) =
    if lo =c memory
    then record unclassified { in_memory = true; align_bytes = align }
    else if lo =c no_class
    then record unclassified { align_bytes = align }
    else if hi =c no_class
    then record unclassified {
      align_bytes = align;
      eightbyte0 = lo;
      count = 1;
      gpr_extend = extend;
    }
    else record {
      in_memory = false;
      align_bytes = align;
      eightbyte0 = lo;
      eightbyte1 = hi;
      count = 2;
      gpr_extend = extend;
    }

abbrev pub is_complex_long_double_type : CType → Bool
is_complex_long_double_type (primitive q k) = k =k complex_long_double
is_complex_long_double_type _ = false

unfoldable pub classify : Heap → ℕ → CType → Classification
unfolding type_alignment classify_into post_merge get_size extension_of classified
classify heap fuel t =
    let align = type_alignment heap fuel t in
    let both = classify_into heap fuel t 0 in
    let merged = post_merge (get_size heap t) both.0 both.1 in
    if is_complex_long_double_type t
    then record unclassified { count = 1; eightbyte0 = complex_x87; align_bytes = align }
    else classified (if ltb align 1 then 1 else align) (extension_of heap t) merged

-- src/types/ObjectAbiType.h
unfoldable pub type_needs_memory_return : Heap → ℕ → CType → Bool
unfolding classify
type_needs_memory_return heap fuel (record_body q i) =
    (heap i).complete && (classify heap fuel (record_body q i)).in_memory
type_needs_memory_return heap fuel _ = false
