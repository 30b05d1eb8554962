-- ===== src/Types/Compatibility.antt =====
-- src/types/TypeCompatibility.cpp: types of the same shape. The qualifiers that the code takes off before it
-- compares are those that `same_after_cv` does not read, so that it works on the types as they are. Two
-- records are of one kind if they have one body. `laws`: what C asks of the relations.
pub mod Laws
use trans.Prelude.{ℕ, Bool, true, false, not, ◌==◌, ◌&&◌, ◌||◌, if◌then◌else◌}
use trans.Types.Primitive.{PrimitiveKind, ◌=k◌}
use trans.Types.CType.{
  CType, CTypes, void, primitive, pointer, function, array, record_body, nil, cons, Qualifiers,
  ArrayPayload, qualifiers, without_top_level_qualifiers,
}

pub data ArrayBound : Type 0 where
  exact compatible : ArrayBound

abbrev pub same_bool : Bool → Bool → Bool
same_bool true b = b
same_bool false b = not b

abbrev pub same_qualifiers : Qualifiers → Qualifiers → Bool
same_qualifiers p q = same_bool p.is_const q.is_const && same_bool p.is_volatile q.is_volatile

-- The bounds of two arrays of one element type.
abbrev pub same_bounds : ArrayBound → ArrayPayload → ArrayPayload → Bool
same_bounds exact p q =
    same_bool p.complete q.complete
    && (same_bool p.is_variable q.is_variable && (p.is_variable || p.count == q.count))
same_bounds compatible p q =
    if p.is_variable || q.is_variable
    then true
    else if p.complete && q.complete
    then p.count == q.count
    else true

abbrev pub matched : Bool → Qualifiers → Qualifiers → Bool
matched match_qualifiers p q = if match_qualifiers then same_qualifiers p q else true

-- Whether the qualifiers of an argument matter.
abbrev pub argument_matched : Bool → ArrayBound → Qualifiers → Qualifiers → Bool
argument_matched match_qualifiers exact p q = matched match_qualifiers p q
argument_matched match_qualifiers compatible p q = true

unfoldable mutual
  pub same_after_cv : Bool → ArrayBound → CType → CType → Bool
  same_after_cv m b (void p) (void q) = true
  same_after_cv m b (primitive p j) (primitive q k) = j =k k
  same_after_cv m b (pointer p t) (pointer q u) =
      matched m (qualifiers t) (qualifiers u) && same_after_cv m b t u
  same_after_cv m b (array p t x) (array q u y) =
      (matched m (qualifiers t) (qualifiers u) && same_after_cv m b t u) && same_bounds b x y
  same_after_cv m b (function p t ts v) (function q u us w) =
      same_bool v w
      && ((matched m (qualifiers t) (qualifiers u) && same_after_cv m b t u)
          && same_arguments m b ts us)
  same_after_cv m b (record_body p i) (record_body q j) = i == j
  same_after_cv m b _ _ = false

  pub same_arguments : Bool → ArrayBound → CTypes → CTypes → Bool
  same_arguments m b nil nil = true
  same_arguments m b (cons t ts) (cons u us) =
      (argument_matched m b (qualifiers t) (qualifiers u) && same_after_cv m b t u)
      && same_arguments m b ts us
  same_arguments m b _ _ = false

unfoldable pub same_shape : Bool → ArrayBound → CType → CType → Bool
same_shape m b t u = matched m (qualifiers t) (qualifiers u) && same_after_cv m b t u

unfoldable pub equivalent_to : CType → CType → Bool
equivalent_to t u = same_shape false exact t u

unfoldable pub same_qualified_type : CType → CType → Bool
same_qualified_type t u = same_shape true exact t u

unfoldable pub compatible_with : CType → CType → Bool
compatible_with t u = same_shape true compatible t u

unfoldable pub same_unqualified_type : CType → CType → Bool
same_unqualified_type t u =
    same_qualified_type (without_top_level_qualifiers t) (without_top_level_qualifiers u)
