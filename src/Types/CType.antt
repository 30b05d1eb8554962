-- ===== src/Types/CType.antt =====
-- src/types/Type.h, Type.cpp and TypeRecords.cpp: C types. Pointees, elements and function types
-- are parts of the type, as they are never changed once shared. The body of a structure or union is
-- shared and completed later, so a type holds its identity, a number, and a heap gives the body.
use Prim.Native.String.{String}
use trans.Prelude.{
  ℕ, Bool, true, false, not, Option, none, some, List, [], ◌&&◌, length, if◌then◌else◌,
}
use trans.Types.Primitive.{PrimitiveKind, kind_size}

pub record Qualifiers : Type 0 where
  pub is_const : Bool
  pub is_volatile : Bool

-- `count`, `size_bytes`: as computed where the array type was built. `bound` is set for a variable
-- array: whether its bound is unspecified.
pub record ArrayPayload : Type 0 where
  pub count : ℕ
  pub size_bytes : ℕ
  pub complete : Bool
  pub is_variable : Bool
  pub bound : Option Bool

mutual
  pub data CType : Type 0 where
    void : Qualifiers → CType
    primitive : Qualifiers → PrimitiveKind → CType
    pointer : Qualifiers → CType → CType
    function : Qualifiers → CType → CTypes → Bool → CType
    array : Qualifiers → CType → ArrayPayload → CType
    record_body : Qualifiers → ℕ → CType

  pub data CTypes : Type 0 where
    nil : CTypes
    cons : CType → CTypes → CTypes

pub record BitField : Type 0 where
  pub width : ℕ
  pub shift : ℕ
  pub is_signed : Bool

pub record Member : Type 0 where
  pub name : String
  pub member_type : Option CType
  pub offset_bytes : ℕ
  pub bit_field : Option BitField

pub record StructBody : Type 0 where
  pub members : List Member
  pub size : ℕ
  pub complete : Bool
  pub is_union : Bool
  pub transparent_union : Bool
  pub packed : Bool

abbrev pub Heap : Type 0
Heap = ℕ → StructBody

abbrev pub unqualified : Qualifiers
unqualified = record { is_const = false; is_volatile = false }

pub data TypeKind : Type 0 where
  void_kind primitive_kind pointer_kind function_kind array_kind struct_kind union_kind : TypeKind

unfoldable pub kind : Heap → CType → TypeKind
kind heap (void q) = void_kind
kind heap (primitive q k) = primitive_kind
kind heap (pointer q t) = pointer_kind
kind heap (function q t a v) = function_kind
kind heap (array q t p) = array_kind
kind heap (record_body q i) = if (heap i).is_union then union_kind else struct_kind

unfoldable pub get_size : Heap → CType → ℕ
unfolding kind_size
get_size heap (void q) = 0
get_size heap (primitive q k) = kind_size k
get_size heap (pointer q t) = 8
get_size heap (function q t a v) = 0
get_size heap (array q t p) = p.size_bytes
get_size heap (record_body q i) = (heap i).size

abbrev pub qualifiers : CType → Qualifiers
qualifiers (void q) = q
qualifiers (primitive q k) = q
qualifiers (pointer q t) = q
qualifiers (function q t a v) = q
qualifiers (array q t p) = q
qualifiers (record_body q i) = q

abbrev pub with_qualifiers : Qualifiers → CType → CType
with_qualifiers q (void _) = void q
with_qualifiers q (primitive _ k) = primitive q k
with_qualifiers q (pointer _ t) = pointer q t
with_qualifiers q (function _ t a v) = function q t a v
with_qualifiers q (array _ t p) = array q t p
with_qualifiers q (record_body _ i) = record_body q i

abbrev pub without_top_level_qualifiers : CType → CType
without_top_level_qualifiers t = with_qualifiers unqualified t

unfoldable pub is_void : CType → Bool
is_void (void q) = true
is_void _ = false

unfoldable pub is_primitive : CType → Bool
is_primitive (primitive q k) = true
is_primitive _ = false

unfoldable pub is_pointer : CType → Bool
is_pointer (pointer q t) = true
is_pointer _ = false

unfoldable pub is_function : CType → Bool
is_function (function q t a v) = true
is_function _ = false

unfoldable pub is_array : CType → Bool
is_array (array q t p) = true
is_array _ = false

unfoldable pub is_record : CType → Bool
is_record (record_body q i) = true
is_record _ = false

unfoldable pub is_incomplete_array : CType → Bool
is_incomplete_array (array q t p) = not p.complete
is_incomplete_array _ = false

unfoldable pub is_variable_array : CType → Bool
is_variable_array (array q t p) = p.is_variable
is_variable_array _ = false

unfoldable pub is_union : Heap → CType → Bool
is_union heap (record_body q i) = (heap i).is_union
is_union heap _ = false

unfoldable pub is_structure : Heap → CType → Bool
is_structure heap (record_body q i) = not (heap i).is_union
is_structure heap _ = false

unfoldable pub is_transparent_union : Heap → CType → Bool
is_transparent_union heap (record_body q i) = (heap i).is_union && (heap i).transparent_union
is_transparent_union heap _ = false

unfoldable pub is_packed : Heap → CType → Bool
is_packed heap (record_body q i) = (heap i).packed
is_packed heap _ = false

unfoldable pub is_complete_record : Heap → CType → Bool
is_complete_record heap (record_body q i) = (heap i).complete
is_complete_record heap _ = false

unfoldable pub is_incomplete_record : Heap → CType → Bool
unfolding is_record is_complete_record
is_incomplete_record heap t = is_record t && not (is_complete_record heap t)

unfoldable pub get_members : Heap → CType → List Member
get_members heap (record_body q i) = (heap i).members
get_members heap _ = []

unfoldable pub member_count : Heap → CType → ℕ
unfolding get_members
member_count heap t = length (get_members heap t)

-- Each getter that ends the compiler on another kind gives `none` there.
unfoldable pub dereference : CType → Option CType
dereference (pointer q t) = some t
dereference _ = none

unfoldable pub get_element_type : CType → Option CType
get_element_type (array q t p) = some t
get_element_type _ = none

unfoldable pub get_primitive : CType → Option PrimitiveKind
get_primitive (primitive q k) = some k
get_primitive _ = none

unfoldable pub decay_array : CType → Option CType
decay_array (array q t p) = some (pointer unqualified t)
decay_array _ = none

unfoldable pub index_element : CType → Option CType
index_element (pointer q t) = some t
index_element (array q t p) = some t
index_element _ = none
