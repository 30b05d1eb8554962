-- ===== src/Types/Assignment.antt =====
-- src/types/TypeQuery.cpp and TypeQuery.h: what may be assigned, and which conversions a value needs.
pub mod Fuel
use trans.Prelude.{
  ℕ, zero, suc, Bool, true, false, not, none, some, List, [], ◌∷◌, ltb, leb, ◌==◌, ◌&&◌, ◌||◌,
  if◌then◌else◌,
}
use trans.Types.CType.{
  CType, pointer, function, array, Heap, Member, unqualified, get_size, is_void, is_primitive,
  is_pointer, is_function, is_array, is_record, is_incomplete_record, is_transparent_union,
  get_members,
}
use trans.Types.Query.{
  is_integral, is_pointer_to_function, is_boolean, signed_integer_type, value_is_signed,
}

unfoldable pub is_product_scalar : CType → Bool
unfolding is_primitive is_pointer
is_product_scalar t = is_primitive t || is_pointer t

unfoldable pub product_decay : CType → CType
product_decay (array q t p) = pointer unqualified t
product_decay (function q t a v) = pointer unqualified (function q t a v)
product_decay t = t

-- The loop over the members of a transparent union.
abbrev pub any_member : (CType → Bool) → List Member → Bool
any_member accepts [] = false
any_member accepts (m ∷ ms) =
    (elim m.member_type [ none ↦ false | some t ↦ accepts t ]) || any_member accepts ms

-- The gate after the destinations that are never assigned to and transparent unions.
unfoldable pub assign_plain : CType → CType → Bool
unfolding is_pointer_to_function is_function is_integral is_pointer is_record is_product_scalar
assign_plain dest src =
    if is_pointer_to_function dest
    then if is_function src || is_pointer_to_function src then true else is_integral src
    else if is_pointer dest
    then if is_pointer src then true else is_integral src
    else if is_function src || is_pointer_to_function src
    then false
    else if is_record dest || is_record src
    then is_record dest && is_record src
    else is_product_scalar dest && is_product_scalar src

-- The body of `productAssignFrom`; `nested` is its call on the members of a transparent union.
unfoldable pub assign_with : (CType → CType → Bool) → Heap → CType → CType → Bool
unfolding is_void is_function is_incomplete_record is_array product_decay is_transparent_union
    is_integral get_members assign_plain
assign_with nested heap dest source =
    if is_void dest
    then is_void source
    else if is_function dest
    then false
    else if is_incomplete_record heap dest
    then false
    else if is_array dest
    then false
    else (let src = product_decay source in
        if is_transparent_union heap dest
        then if is_integral src
          then true
          else any_member (λ t. nested t src) (get_members heap dest)
        else assign_plain dest src)

-- A member of a transparent union may be one again: the fuel bounds that nesting.
unfoldable pub product_assign_from : Heap → ℕ → CType → CType → Bool
unfolding assign_with
product_assign_from heap zero = assign_with (λ t src. false) heap
product_assign_from heap (suc f) = assign_with (product_assign_from heap f) heap

unfoldable pub needs_integer_widen : Heap → CType → CType → Bool
unfolding is_integral get_size
needs_integer_widen heap from to =
    is_integral from
    && (is_integral to
        && (ltb 0 (get_size heap from) && ltb (get_size heap from) (get_size heap to)))

unfoldable pub needs_integer_narrow : Heap → CType → CType → Bool
unfolding is_integral is_boolean get_size
needs_integer_narrow heap from to =
    is_integral from
    && (is_integral to
        && (not (is_boolean to)
            && (ltb 0 (get_size heap to) && ltb (get_size heap to) (get_size heap from))))

abbrev bool_ne : Bool → Bool → Bool
bool_ne true b = not b
bool_ne false b = b

unfoldable pub needs_integer_sign_change : Heap → CType → CType → Bool
unfolding is_integral is_boolean get_size value_is_signed
needs_integer_sign_change heap from to =
    is_integral from
    && (is_integral to
        && (not (is_boolean from)
            && (not (is_boolean to)
                && (ltb 0 (get_size heap from)
                    && (get_size heap from == get_size heap to
                        && (leb (get_size heap from) (get_size heap signed_integer_type)
                            && bool_ne (value_is_signed from) (value_is_signed to)))))))

unfoldable pub needs_integer_to_pointer_extend : Heap → CType → CType → Bool
unfolding is_integral is_pointer get_size
needs_integer_to_pointer_extend heap from to =
    is_integral from
    && (is_pointer to
        && (ltb 0 (get_size heap from) && ltb (get_size heap from) (get_size heap to)))
