-- ===== src/Types/Classify/Integers.antt =====
-- src/types/SysVClassify.cpp: which eightbytes of a type are INTEGER.
use trans.Prelude.{
  ℕ, zero, suc, ◌+◌, ◌%◌, ◌==◌, ◌≡◌, refl, Bool, true, false, not, Option, none, some, List, [],
  ◌∷◌, ltb, ◌&&◌, ◌||◌, arith, inl, inr, ◌∙◌, subst, sym, ap, Bool-cases, if_both, if◌then◌else◌,
}
use trans.Abi.Classes.{Class, ◌=c◌, integer, memory, no_class, merge, post_merge, GprExtend}
use trans.Types.Primitive.{kind_is_floating, kind_is_complex}
use trans.Types.CType.{
  CType, void, primitive, pointer, function, array, record_body, Heap, Member, BitField, get_size,
}
use trans.Types.Layout.{type_alignment}
use trans.Types.Classify.{
  Eightbytes, merge_both, classify_member, classify_elements, classify_bytes, classify_bit_field,
  classify_members, classify_into, classified, classify, max_classify_bytes,
  is_complex_long_double_type, extension_of,
}
use trans.Types.Classify.Bytes.{
  Stretches, element_bytes, member_bytes, members_bytes, integer_bytes, in_first, in_second,
  in_first-append, in_second-append, Tracks, Tracks-merge, Tracks-primitive, Tracks-pointer,
  Tracks-none,
}

Tracks-as : (e : Eightbytes) (x y u v : Bool) → x ≡ u → y ≡ v → Tracks e x y → Tracks e u v
Tracks-as e x y u v g h (inl b) = inl b
Tracks-as e x y u v g h (inr (a, b)) = inr (a ∙ g, b ∙ h)

or_false : (x : Bool) → x ≡ (x || false)
or_false x = ground arith

or_assoc : (x y z : Bool) → ((x || y) || z) ≡ (x || (y || z))
or_assoc x y z = ground arith

first_bad : (p q : Bool) → p ≡ true → (p || q) ≡ true
first_bad p q h = ground arith

-- A loop that stops where the first class is MEMORY.
Tracks-stop :
    (stop : Bool) (e f : Eightbytes) (x y : Bool)
    → ((stop ≡ true) → (e.0 =c memory) ≡ true)
    → Tracks f x y
    → Tracks (if stop then e else f) x y
Tracks-stop true e f x y h p = inl (first_bad _ _ (h refl))
Tracks-stop false e f x y h p = p

Tracks-elements :
    (rec : ℕ → Eightbytes) (bytes : ℕ → Stretches)
    → ((o : ℕ) → Tracks (rec o) (in_first (bytes o)) (in_second (bytes o)))
    → (stride offset n : ℕ) (acc : Eightbytes) (x y : Bool) → Tracks acc x y
    → Tracks
        (classify_elements rec stride offset n acc)
        (x || in_first (element_bytes bytes stride offset n))
        (y || in_second (element_bytes bytes stride offset n))
unfolding classify_elements
Tracks-elements rec bytes h stride offset zero acc x y p =
    Tracks-as acc x y _ _ (or_false x) (or_false y) p
Tracks-elements rec bytes h stride offset (suc n) acc x y p =
    let acc' = merge_both acc (rec offset) in
    let here = bytes offset in
    let others = element_bytes bytes stride (offset + stride) n in
    let rest =
      Tracks-elements rec bytes h stride (offset + stride) n acc' (x || in_first here)
        (y || in_second here) (Tracks-merge acc (rec offset) x y _ _ p (h offset)) in
    Tracks-stop (acc'.0 =c memory) acc' _ _ _ (λ e. e)
      (Tracks-as _ _ _ _ _ (or_assoc x _ _ ∙ ap (λ b. x || b) (sym (in_first-append here others)))
        (or_assoc y _ _ ∙ ap (λ b. y || b) (sym (in_second-append here others))) rest)

merge-none : (a : Class) → merge a no_class ≡ a
unfolding merge
merge-none a = ground arith

one_byte :
    (b : ℕ) (acc : Eightbytes) (x y : Bool)
    → Tracks acc x y
    → Tracks
        (if ltb b 8 then (merge acc.0 integer, acc.1) else (acc.0, merge acc.1 integer))
        (x || ltb b 8)
        (y || not (ltb b 8))
one_byte b acc x y p = elim (Bool-cases (ltb b 8)) [
  | inl e ↦ rw e (
      subst (λ k. Tracks (merge acc.0 integer, k) (x || true) (y || false)) (merge-none acc.1)
        (Tracks-merge acc (integer, no_class) x y true false p (inr (refl, refl))))
  | inr e ↦ rw e (
      subst (λ k. Tracks (k, merge acc.1 integer) (x || false) (y || true)) (merge-none acc.0)
        (Tracks-merge acc (no_class, integer) x y false true p (inr (refl, refl))))
]

Tracks-bytes :
    (b n : ℕ) (acc : Eightbytes) (x y : Bool)
    → Tracks acc x y
    → Tracks
        (classify_bytes b n acc)
        (x || in_first ((b, b + n) ∷ []))
        (y || in_second ((b, b + n) ∷ []))
unfolding classify_bytes
Tracks-bytes b zero acc x y p = Tracks-as acc x y _ _ (ground arith) (ground arith) p
Tracks-bytes b (suc n) acc x y p =
    Tracks-as _ _ _ _ _ (ground arith) (ground arith)
      (Tracks-bytes (b + 1) n _ (x || ltb b 8) (y || not (ltb b 8)) (one_byte b acc x y p))

-- What is known after a member.
abbrev After : Eightbytes × Bool → Bool → Bool → Type 0
After r x y = Tracks r.0 x y × (r.1 ≡ true → (r.0.0 =c memory) ≡ true)

Tracks-member :
    (align : CType → ℕ) (rec : CType → ℕ → Eightbytes) (bytes : CType → ℕ → Stretches)
    → ((t : CType) (o : ℕ) → Tracks (rec t o) (in_first (bytes t o)) (in_second (bytes t o)))
    → (base : ℕ) (m : Member) (t : Option CType) (bits : Option BitField) (acc : Eightbytes)
      (x y : Bool)
    → Tracks acc x y
    → After
        (classify_member align rec base m t bits acc)
        (x || in_first (member_bytes bytes base m t bits))
        (y || in_second (member_bytes bytes base m t bits))
unfolding classify_member classify_bit_field
Tracks-member align rec bytes h base m none bits acc x y p =
    (Tracks-as acc x y _ _ (or_false x) (or_false y) p, λ e. cc)
Tracks-member align rec bytes h base m (some t) (some bits) acc x y p =
    (Tracks-bytes _ _ acc x y p, λ e. cc)
Tracks-member align rec bytes h base m (some t) none acc x y p =
    if_both
      (λ (r : Eightbytes × Bool).
        After r (x || in_first (bytes t (base + m.offset_bytes)))
          (y || in_second (bytes t (base + m.offset_bytes))))
      (ltb 1 (align t) && not (m.offset_bytes % align t == 0)) ((memory, acc.1), true) _
      (inl refl, λ e. refl)
      (
        Tracks-merge acc (rec t (base + m.offset_bytes)) x y _ _ p (h t (base + m.offset_bytes)),
        λ e. e,
      )

Tracks-members :
    (align : CType → ℕ) (rec : CType → ℕ → Eightbytes) (bytes : CType → ℕ → Stretches)
    → ((t : CType) (o : ℕ) → Tracks (rec t o) (in_first (bytes t o)) (in_second (bytes t o)))
    → (base : ℕ) (ms : List Member) (acc : Eightbytes) (x y : Bool) → Tracks acc x y
    → Tracks
        (classify_members align rec base ms acc)
        (x || in_first (members_bytes bytes base ms))
        (y || in_second (members_bytes bytes base ms))
unfolding classify_members
Tracks-members align rec bytes h base [] acc x y p =
    Tracks-as acc x y _ _ (or_false x) (or_false y) p
Tracks-members align rec bytes h base (m ∷ ms) acc x y p =
    let here = member_bytes bytes base m m.member_type m.bit_field in
    let others = members_bytes bytes base ms in
    let one = Tracks-member align rec bytes h base m m.member_type m.bit_field acc x y p in
    let r = classify_member align rec base m m.member_type m.bit_field acc in
    let rest = Tracks-members align rec bytes h base ms r.0 _ _ one.0 in
    Tracks-stop r.1 r.0 _ _ _ one.1 (
      Tracks-as _ _ _ _ _ (or_assoc x _ _ ∙ ap (λ b. x || b) (sym (in_first-append here others)))
        (or_assoc y _ _ ∙ ap (λ b. y || b) (sym (in_second-append here others))) rest)

guarded :
    (complete large : Bool) (e : Eightbytes) (bs : Stretches)
    → Tracks e (in_first bs) (in_second bs)
    → Tracks
        (if not complete then (no_class, no_class) else if large then (memory, no_class) else e)
        (in_first (if complete then bs else []))
        (in_second (if complete then bs else []))
guarded false large e bs p = Tracks-none
guarded true true e bs p = inl refl
guarded true false e bs p = p

Tracks-classify_into :
    (heap : Heap) (fuel : ℕ) (t : CType) (offset : ℕ)
    → Tracks
        (classify_into heap fuel t offset)
        (in_first (integer_bytes heap fuel t offset))
        (in_second (integer_bytes heap fuel t offset))
unfolding classify_into integer_bytes
Tracks-classify_into heap fuel (void q) offset = Tracks-none
Tracks-classify_into heap fuel (pointer q t) offset = Tracks-pointer offset
Tracks-classify_into heap fuel (function q t a v) offset = Tracks-pointer offset
Tracks-classify_into heap fuel (primitive q k) offset = Tracks-primitive k offset
Tracks-classify_into heap fuel (array q t p) offset =
    guarded p.complete (ltb max_classify_bytes p.size_bytes) _ _ (
      Tracks-elements (classify_into heap fuel t) (integer_bytes heap fuel t)
        (Tracks-classify_into heap fuel t) (get_size heap t) offset p.count (no_class, no_class)
        false false Tracks-none)
Tracks-classify_into heap zero (record_body q i) offset = Tracks-none
Tracks-classify_into heap (suc fuel) (record_body q i) offset =
    guarded (heap i).complete (ltb max_classify_bytes (heap i).size) _ _ (
      Tracks-members (type_alignment heap fuel) (classify_into heap fuel) (integer_bytes heap fuel)
        (Tracks-classify_into heap fuel) offset (heap i).members (no_class, no_class) false false
        Tracks-none)

classified-integers :
    (size align : ℕ) (e : GprExtend) (both : Eightbytes) (x y : Bool)
    → Tracks both x y
    → (classified align e (post_merge size both.0 both.1)).in_memory ≡ false
    → (((classified align e (post_merge size both.0 both.1)).eightbyte0 =c integer) ≡ x)
      × (((classified align e (post_merge size both.0 both.1)).eightbyte1 =c integer)
          ≡ (ltb 0 (classified align e (post_merge size both.0 both.1)).count && y))
unfolding classified post_merge
classified-integers size align e (lo, hi) x y p h = ground arith

no_integers :
    (heap : Heap) (fuel : ℕ) (t : CType)
    → is_complex_long_double_type t ≡ true
    → integer_bytes heap fuel t 0 ≡ []
unfolding integer_bytes kind_is_floating kind_is_complex
no_integers heap fuel (void q) h = refl
no_integers heap fuel (primitive q k) h = ground arith
no_integers heap fuel (pointer q t) h = cc
no_integers heap fuel (function q t a v) h = cc
no_integers heap fuel (array q t p) h = cc
no_integers heap zero (record_body q i) h = refl
no_integers heap (suc fuel) (record_body q i) h = cc

-- Where a type is not classified as MEMORY, its first eightbyte is INTEGER exactly where an integer or
-- a bit-field has a byte in the first eight bytes of an object or a pointer begins there; and the
-- second is INTEGER exactly where there is a first one and an integer or a bit-field has a later byte
-- or a pointer begins at one.
pub classify-integers :
    (heap : Heap) (fuel : ℕ) (t : CType)
    → (classify heap fuel t).in_memory ≡ false
    → (((classify heap fuel t).eightbyte0 =c integer) ≡ in_first (integer_bytes heap fuel t 0))
      × (((classify heap fuel t).eightbyte1 =c integer)
          ≡ (ltb 0 (classify heap fuel t).count && in_second (integer_bytes heap fuel t 0)))
unfolding classify
classify-integers heap fuel t h = elim (Bool-cases (is_complex_long_double_type t)) [
  | inl e ↦ rw (e, no_integers heap fuel t e) (refl, refl)
  | inr e ↦
      let both = classify_into heap fuel t 0 in
      let align = type_alignment heap fuel t in
      let known = rw e at h in
      rw e (
        classified-integers (get_size heap t) (if ltb align 1 then 1 else align)
          (extension_of heap t) both _ _ (Tracks-classify_into heap fuel t 0) known)
]
