-- ===== src/Types/Classify/Laws.antt =====
-- src/types/SysVClassify.cpp: what `classify` promises, and that enough fuel gives one result.
use trans.Prelude.{
  ℕ, zero, suc, ◌+◌, ◌<◌, ◌≤◌, ◌≡◌, refl, true, false, arith, ltb, inl, inr, List, [], ◌∷◌, Option,
  none, some, not, Bool-cases, if_both, Bool, if◌then◌else◌,
}
use trans.Abi.Classes.{
  Class, ◌=c◌, unclassified, complex_x87, integer, memory, sse_up, no_class, Classification,
  GprExtend, post_merge, merge,
}
use trans.Types.Primitive.{PrimitiveKind}
use trans.Types.CType.{
  CType, void, primitive, pointer, function, array, record_body, Heap, Member, BitField, get_size,
}
use trans.Types.Layout.{type_alignment}
use trans.Types.Classify.{
  Eightbytes, merge_both, slot_at, classify_member, classify_primitive, classify_elements,
  classify_bytes, classify_bit_field, classify_members, classify_into, classified, classify,
  max_classify_bytes, is_complex_long_double_type, extension_of,
}

-- A classification has at most two eightbytes and none of them when it is in memory; both are
-- classes of values, not MEMORY.
pub record IsClassified (c : Classification) : Type 0 where
  pub at_most_two : c.count ≤ 2
  pub in_memory : c.in_memory ≡ true → c.count ≡ 0
  pub first : 0 < c.count → (c.eightbyte0 ≡ no_class → ⊥) × (c.eightbyte0 ≡ memory → ⊥)
  pub second : 1 < c.count → (c.eightbyte1 ≡ no_class → ⊥) × (c.eightbyte1 ≡ memory → ⊥)

classified-IsClassified :
    (size align : ℕ) (e : GprExtend) (lo hi : Class)
    → IsClassified (classified align e (post_merge size lo hi))
unfolding classified post_merge
classified-IsClassified size align e lo hi = ground arith

-- No eightbyte is SSEUP.
abbrev NoUp : Eightbytes → Type 0
NoUp e = (e.0 =c sse_up ≡ false) × (e.1 =c sse_up ≡ false)

merge-NoUp :
    (a b : Class) → (a =c sse_up ≡ false) → (b =c sse_up ≡ false) → merge a b =c sse_up ≡ false
unfolding merge
merge-NoUp a b p q = ground arith

merge_both-NoUp : (a b : Eightbytes) → NoUp a → NoUp b → NoUp (merge_both a b)
merge_both-NoUp a b p q = (merge-NoUp a.0 b.0 p.0 q.0, merge-NoUp a.1 b.1 p.1 q.1)

slot_at-NoUp : (offset : ℕ) (k : Class) → (k =c sse_up ≡ false) → NoUp (slot_at offset k)
slot_at-NoUp offset k h = ground arith

classify_primitive-NoUp : (k : PrimitiveKind) (offset : ℕ) → NoUp (classify_primitive k offset)
unfolding classify_primitive
classify_primitive-NoUp k offset = ground arith

classify_elements-NoUp :
    (rec : ℕ → Eightbytes)
    → ((o : ℕ) → NoUp (rec o))
    → (stride offset n : ℕ) (acc : Eightbytes) → NoUp acc
    → NoUp (classify_elements rec stride offset n acc)
unfolding classify_elements
classify_elements-NoUp rec h stride offset zero acc p = p
classify_elements-NoUp rec h stride offset (suc n) acc p =
    let q = merge_both-NoUp acc (rec offset) p (h offset) in
    if_both NoUp _ _ _ q (classify_elements-NoUp rec h stride (offset + stride) n _ q)

classify_bytes-NoUp : (b n : ℕ) (acc : Eightbytes) → NoUp acc → NoUp (classify_bytes b n acc)
unfolding classify_bytes
classify_bytes-NoUp b zero acc p = p
classify_bytes-NoUp b (suc n) acc p = classify_bytes-NoUp (b + 1) n _ (
    if_both NoUp (ltb b 8) _ _ (merge-NoUp acc.0 integer p.0 refl, p.1)
      (p.0, merge-NoUp acc.1 integer p.1 refl))

classify_member-NoUp :
    (align : CType → ℕ) (rec : CType → ℕ → Eightbytes)
    → ((t : CType) (o : ℕ) → NoUp (rec t o))
    → (base : ℕ) (m : Member) (t : Option CType) (bits : Option BitField) (acc : Eightbytes)
    → NoUp acc
    → NoUp (classify_member align rec base m t bits acc).0
unfolding classify_member classify_bit_field
classify_member-NoUp align rec h base m none bits acc p = p
classify_member-NoUp align rec h base m (some t) (some bits) acc p = classify_bytes-NoUp _ _ acc p
classify_member-NoUp align rec h base m (some t) none acc p =
    if_both (λ (r : Eightbytes × Bool). NoUp r.0) _ _ _ (refl, p.1)
      (merge_both-NoUp acc _ p (h t (base + m.offset_bytes)))

classify_members-NoUp :
    (align : CType → ℕ) (rec : CType → ℕ → Eightbytes)
    → ((t : CType) (o : ℕ) → NoUp (rec t o))
    → (base : ℕ) (ms : List Member) (acc : Eightbytes) → NoUp acc
    → NoUp (classify_members align rec base ms acc)
unfolding classify_members
classify_members-NoUp align rec h base [] acc p = p
classify_members-NoUp align rec h base (m ∷ ms) acc p =
    let q = classify_member-NoUp align rec h base m m.member_type m.bit_field acc p in
    if_both NoUp _ _ _ q (classify_members-NoUp align rec h base ms _ q)

none-NoUp : NoUp (no_class, no_class)
none-NoUp = (refl, refl)

-- The two early returns of `classify_into`.
guarded-NoUp :
    (c d : Bool) (e : Eightbytes)
    → NoUp e
    → NoUp (if c then (no_class, no_class) else if d then (memory, no_class) else e)
guarded-NoUp true d e h = none-NoUp
guarded-NoUp false true e h = (refl, refl)
guarded-NoUp false false e h = h

classify_into-NoUp :
    (heap : Heap) (fuel : ℕ) (t : CType) (offset : ℕ) → NoUp (classify_into heap fuel t offset)
unfolding classify_into
classify_into-NoUp heap fuel (void q) offset = none-NoUp
classify_into-NoUp heap fuel (pointer q t) offset = slot_at-NoUp offset integer refl
classify_into-NoUp heap fuel (function q t a v) offset = slot_at-NoUp offset integer refl
classify_into-NoUp heap fuel (primitive q k) offset = classify_primitive-NoUp k offset
classify_into-NoUp heap fuel (array q t p) offset =
    guarded-NoUp (not p.complete) (ltb max_classify_bytes p.size_bytes)
      (classify_elements (classify_into heap fuel t) (get_size heap t) offset p.count
        (no_class, no_class))
      (classify_elements-NoUp (classify_into heap fuel t) (classify_into-NoUp heap fuel t)
        (get_size heap t) offset p.count (no_class, no_class) none-NoUp)
classify_into-NoUp heap zero (record_body q i) offset = none-NoUp
classify_into-NoUp heap (suc fuel) (record_body q i) offset =
    guarded-NoUp (not (heap i).complete) (ltb max_classify_bytes (heap i).size)
      (classify_members (type_alignment heap fuel) (classify_into heap fuel) offset (heap i).members
        (no_class, no_class))
      (classify_members-NoUp (type_alignment heap fuel) (classify_into heap fuel)
        (classify_into-NoUp heap fuel) offset (heap i).members (no_class, no_class) none-NoUp)

large_memory :
    (size align : ℕ) (e : GprExtend) (lo hi : Class)
    → NoUp (lo, hi)
    → 16 < size
    → (classified align e (post_merge size lo hi)).in_memory ≡ true
unfolding classified post_merge
large_memory size align e lo hi p h = ground arith

complex_result :
    (align : ℕ)
    → IsClassified
        (record unclassified { count = 1; eightbyte0 = complex_x87; align_bytes = align })
complex_result align = ground arith

-- Every classification has at most two eightbytes, none of them when it is in memory, and no
-- eightbyte of it is `NoClass` or MEMORY.
pub classify-IsClassified :
    (heap : Heap) (fuel : ℕ) (t : CType) → IsClassified (classify heap fuel t)
unfolding classify
classify-IsClassified heap fuel t = elim (Bool-cases (is_complex_long_double_type t)) [
  | inl e ↦ rw e (complex_result (type_alignment heap fuel t))
  | inr e ↦ rw e (
      classified-IsClassified (get_size heap t)
        (if ltb (type_alignment heap fuel t) 1 then 1 else type_alignment heap fuel t)
        (extension_of heap t) (classify_into heap fuel t 0).0 (classify_into heap fuel t 0).1)
]

-- An object of more than 16 bytes is passed in memory, unless it is a `_Complex long double`.
pub classify_large :
    (heap : Heap) (fuel : ℕ) (t : CType)
    → is_complex_long_double_type t ≡ false
    → 16 < get_size heap t
    → (classify heap fuel t).in_memory ≡ true
unfolding classify
classify_large heap fuel t h size = rw h (
    large_memory (get_size heap t)
      (if ltb (type_alignment heap fuel t) 1 then 1 else type_alignment heap fuel t)
      (extension_of heap t) (classify_into heap fuel t 0).0 (classify_into heap fuel t 0).1
      (classify_into-NoUp heap fuel t 0) size)
