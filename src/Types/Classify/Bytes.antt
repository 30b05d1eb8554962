-- ===== src/Types/Classify/Bytes.antt =====
-- src/types/SysVClassify.cpp: where the bytes of the integers, pointers and bit-fields of a type lie,
-- and the merging of classes with INTEGER among them.
use trans.Prelude.{
  ℕ, zero, suc, ◌+◌, ◌-◌, ◌/◌, ◌≡◌, refl, Bool, true, false, Option, none, some, List, [], ◌∷◌,
  ◌++◌, ltb, ◌&&◌, ◌||◌, arith, inl, inr, ◌⊎◌, ◌∙◌, Bool-cases, if◌then◌else◌,
}
use trans.Abi.Classes.{Class, ◌=c◌, integer, memory, no_class, merge}
use trans.Types.Primitive.{PrimitiveKind, kind_size, kind_is_floating, kind_is_complex}
use trans.Types.CType.{
  CType, void, primitive, pointer, function, array, record_body, Heap, Member, BitField, get_size,
}
use trans.Types.Classify.{Eightbytes, merge_both, slot_at, classify_primitive}

-- Stretches of bytes, each with its first byte and the byte after it.
abbrev pub Stretches : Type 0
Stretches = List (ℕ × ℕ)

abbrev pub primitive_bytes : PrimitiveKind → ℕ → Stretches
primitive_bytes k offset =
    if kind_is_floating k || kind_is_complex k then [] else (offset, offset + kind_size k) ∷ []

abbrev pub element_bytes : (ℕ → Stretches) → ℕ → ℕ → ℕ → Stretches
element_bytes bytes stride offset zero = []
element_bytes bytes stride offset (suc n) =
    bytes offset ++ element_bytes bytes stride (offset + stride) n

-- The bytes from the one with the first bit to the one with the last.
abbrev pub bit_field_bytes : ℕ → Member → BitField → Stretches
bit_field_bytes base m bits =
    (
      base + (m.offset_bytes + bits.shift / 8),
      base
          + (m.offset_bytes + bits.shift / 8)
          + (m.offset_bytes
              + (bits.shift + bits.width - 1) / 8
              + 1
              - (m.offset_bytes + bits.shift / 8)),
    )
    ∷ []

abbrev pub member_bytes :
    (CType → ℕ → Stretches) → ℕ → Member → Option CType → Option BitField → Stretches
member_bytes bytes base m none bits = []
member_bytes bytes base m (some t) (some bits) = bit_field_bytes base m bits
member_bytes bytes base m (some t) none = bytes t (base + m.offset_bytes)

abbrev pub members_bytes : (CType → ℕ → Stretches) → ℕ → List Member → Stretches
members_bytes bytes base [] = []
members_bytes bytes base (m ∷ ms) =
    member_bytes bytes base m m.member_type m.bit_field ++ members_bytes bytes base ms

-- The integers, the bit-fields, and of pointers the first byte, in an object of the type at an offset.
-- The fuel bounds the nesting of records.
unfoldable pub integer_bytes : Heap → ℕ → CType → ℕ → Stretches
integer_bytes heap fuel (void q) offset = []
integer_bytes heap fuel (primitive q k) offset = primitive_bytes k offset
integer_bytes heap fuel (pointer q t) offset = (offset, offset + 1) ∷ []
integer_bytes heap fuel (function q t a v) offset = (offset, offset + 1) ∷ []
integer_bytes heap fuel (array q t p) offset =
    let elements = element_bytes (integer_bytes heap fuel t) (get_size heap t) offset p.count in
    if p.complete then elements else []
integer_bytes heap zero (record_body q i) offset = []
integer_bytes heap (suc fuel) (record_body q i) offset =
    if (heap i).complete
    then members_bytes (integer_bytes heap fuel) offset (heap i).members
    else []

-- Some byte of the stretches lies in the first eightbyte, or after it.
abbrev pub in_first : Stretches → Bool
in_first [] = false
in_first ((from, to) ∷ rest) = (ltb from to && ltb from 8) || in_first rest

abbrev pub in_second : Stretches → Bool
in_second [] = false
in_second ((from, to) ∷ rest) = (ltb from to && ltb 8 to) || in_second rest

pub in_first-append : (xs ys : Stretches) → in_first (xs ++ ys) ≡ (in_first xs || in_first ys)
in_first-append [] ys = refl
in_first-append ((from, to) ∷ xs) ys = ground (arith, in_first-append xs ys)

pub in_second-append : (xs ys : Stretches) → in_second (xs ++ ys) ≡ (in_second xs || in_second ys)
in_second-append [] ys = refl
in_second-append ((from, to) ∷ xs) ys = ground (arith, in_second-append xs ys)

-- One of two classes is MEMORY, or each is INTEGER exactly where a Boolean says so.
abbrev pub Tracks : Eightbytes → Bool → Bool → Type 0
Tracks e x y =
    ((e.0 =c memory || e.1 =c memory) ≡ true) ⊎ (((e.0 =c integer) ≡ x) × ((e.1 =c integer) ≡ y))

merge-memory : (a b : Class) → (merge a b =c memory) ≡ ((a =c memory) || (merge a b =c memory))
unfolding merge
merge-memory a b = ground arith

merge_comm_memory : (a b : Class) → (merge a b =c memory) ≡ ((b =c memory) || (merge a b =c memory))
unfolding merge
merge_comm_memory a b = ground arith

merge-integer :
    (a b : Class)
    → (merge a b =c memory) ≡ false
    → (merge a b =c integer) ≡ ((a =c integer) || (b =c integer))
unfolding merge
merge-integer a b h = ground arith

-- Where one of the first two is true, one of the others is.
or_bad : (p q r s : Bool) → r ≡ (p || r) → s ≡ (q || s) → (p || q) ≡ true → (r || s) ≡ true
or_bad p q r s e f h = ground arith

or_parts : (p q : Bool) → (p || q) ≡ false → (p ≡ false) × (q ≡ false)
or_parts p q h = ground arith

pub Tracks-merge :
    (a b : Eightbytes) (x y u v : Bool)
    → Tracks a x y
    → Tracks b u v
    → Tracks (merge_both a b) (x || u) (y || v)
Tracks-merge a b x y u v (inl p) q =
    inl (or_bad _ _ _ _ (merge-memory a.0 b.0) (merge-memory a.1 b.1) p)
Tracks-merge a b x y u v (inr p) (inl q) =
    inl (or_bad _ _ _ _ (merge_comm_memory a.0 b.0) (merge_comm_memory a.1 b.1) q)
Tracks-merge a b x y u v (inr p) (inr q) =
    elim (Bool-cases ((merge a.0 b.0 =c memory) || (merge a.1 b.1 =c memory))) [
      | inl e ↦ inl e
      | inr e ↦
          let (low, high) = or_parts _ _ e in
          inr (
            merge-integer a.0 b.0 low ∙ rw (p.0, q.0) refl,
            merge-integer a.1 b.1 high ∙ rw (p.1, q.1) refl,
          )
    ]

pub Tracks-primitive :
    (k : PrimitiveKind) (offset : ℕ)
    → Tracks
        (classify_primitive k offset)
        (in_first (primitive_bytes k offset))
        (in_second (primitive_bytes k offset))
unfolding classify_primitive kind_size kind_is_floating kind_is_complex
Tracks-primitive k offset = ground arith

pub Tracks-pointer :
    (offset : ℕ)
    → Tracks
        (slot_at offset integer)
        (in_first ((offset, offset + 1) ∷ []))
        (in_second ((offset, offset + 1) ∷ []))
Tracks-pointer offset = ground arith

pub Tracks-none : Tracks (no_class, no_class) false false
Tracks-none = inr (refl, refl)
