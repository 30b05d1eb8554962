-- ===== src/Types/Compatibility/Laws.antt =====
-- src/types/TypeCompatibility.cpp: compatibility is reflexive and symmetric, and holds of equal types.
use trans.Prelude.{◌≡◌, refl, Bool, true, ◌&&◌, arith}
use trans.Types.CType.{
  CType, CTypes, void, primitive, pointer, function, array, record_body, nil, cons, Qualifiers,
  ArrayPayload, qualifiers,
}
use trans.Types.Compatibility.{
  ArrayBound, exact, compatible, same_bounds, matched, same_after_cv, same_arguments, same_shape,
  same_qualified_type, compatible_with,
}

qualifiers_refl : (m : Bool) (p : Qualifiers) → matched m p p ≡ true
qualifiers_refl m p = ground arith

bounds_refl : (b : ArrayBound) (p : ArrayPayload) → same_bounds b p p ≡ true
bounds_refl b p = ground arith

qualifiers_sym : (m : Bool) (p q : Qualifiers) → matched m p q ≡ matched m q p
qualifiers_sym m p q = ground arith

bounds_sym : (b : ArrayBound) (p q : ArrayPayload) → same_bounds b p q ≡ same_bounds b q p
bounds_sym b p q = ground arith

and_mono :
    (a b a' b' : Bool)
    → (a ≡ true → a' ≡ true)
    → (b ≡ true → b' ≡ true)
    → (a && b) ≡ true
    → (a' && b') ≡ true
and_mono a b a' b' f g h = ground arith

bounds_weaken :
    (p q : ArrayPayload) → same_bounds exact p q ≡ true → same_bounds compatible p q ≡ true
bounds_weaken p q h = ground arith

mutual
  unfolding same_after_cv same_arguments

  shape_refl : (m : Bool) (b : ArrayBound) (t : CType) → same_after_cv m b t t ≡ true
  shape_refl m b (void p) = refl
  shape_refl m b (primitive p k) = ground arith
  shape_refl m b (pointer p t) = ground (arith, qualifiers_refl m (qualifiers t), shape_refl m b t)
  shape_refl m b (array p t x) =
      ground (arith, qualifiers_refl m (qualifiers t), shape_refl m b t, bounds_refl b x)
  shape_refl m b (function p t ts v) =
      ground (arith, qualifiers_refl m (qualifiers t), shape_refl m b t, arguments_refl m b ts)
  shape_refl m b (record_body p i) = ground arith

  arguments_refl : (m : Bool) (b : ArrayBound) (ts : CTypes) → same_arguments m b ts ts ≡ true
  arguments_refl m b nil = refl
  arguments_refl m b (cons t ts) =
      ground (arith, qualifiers_refl m (qualifiers t), shape_refl m b t, arguments_refl m b ts)

mutual
  unfolding same_after_cv same_arguments

  shape_sym :
      (m : Bool) (b : ArrayBound) (t u : CType) → same_after_cv m b t u ≡ same_after_cv m b u t
  shape_sym m b (void p) u = ground arith
  shape_sym m b (primitive p j) u = ground arith
  shape_sym m b (pointer p t) (pointer q u) =
      ground (arith, qualifiers_sym m (qualifiers t) (qualifiers u), shape_sym m b t u)
  shape_sym m b (array p t x) (array q u y) =
      ground
        (arith, qualifiers_sym m (qualifiers t) (qualifiers u), shape_sym m b t u, bounds_sym b x y)
  shape_sym m b (function p t ts v) (function q u us w) = ground (
    arith,
    qualifiers_sym m (qualifiers t) (qualifiers u),
    shape_sym m b t u,
    arguments_sym m b ts us,
  )
  shape_sym m b (record_body p i) u = ground arith
  shape_sym m b t u = ground arith

  arguments_sym :
      (m : Bool) (b : ArrayBound) (ts us : CTypes)
      → same_arguments m b ts us ≡ same_arguments m b us ts
  arguments_sym m b nil nil = refl
  arguments_sym m b nil (cons u us) = refl
  arguments_sym m b (cons t ts) nil = refl
  arguments_sym m b (cons t ts) (cons u us) = ground (
    arith,
    qualifiers_sym m (qualifiers t) (qualifiers u),
    shape_sym m b t u,
    arguments_sym m b ts us,
  )

mutual
  unfolding same_after_cv same_arguments

  shape_weaken :
      (m : Bool) (t u : CType)
      → same_after_cv m exact t u ≡ true
      → same_after_cv m compatible t u ≡ true
  shape_weaken m (void p) u h = ground arith
  shape_weaken m (primitive p j) u h = ground arith
  shape_weaken m (pointer p t) (pointer q u) h = ground (arith, shape_weaken m t u)
  shape_weaken m (array p t x) (array q u y) h =
      and_mono _ _ _ _ (and_mono _ _ _ _ (λ e. e) (shape_weaken m t u)) (bounds_weaken x y) h
  shape_weaken m (function p t ts v) (function q u us w) h =
      and_mono _ _ _ _ (λ e. e)
        (and_mono _ _ _ _ (and_mono _ _ _ _ (λ e. e) (shape_weaken m t u))
          (arguments_weaken m ts us))
        h
  shape_weaken m (record_body p i) u h = ground arith
  shape_weaken m t u h = ground arith

  arguments_weaken :
      (m : Bool) (ts us : CTypes)
      → same_arguments m exact ts us ≡ true
      → same_arguments m compatible ts us ≡ true
  arguments_weaken m nil nil h = refl
  arguments_weaken m nil (cons u us) h = cc
  arguments_weaken m (cons t ts) nil h = cc
  arguments_weaken m (cons t ts) (cons u us) h =
      and_mono _ _ _ _ (and_mono _ _ _ _ (λ _. refl) (shape_weaken m t u))
        (arguments_weaken m ts us) h

-- Every type is compatible with itself, compatibility is symmetric, and types that are the same with
-- their qualifiers are compatible.
pub compatible_with_laws :
    (t u : CType)
    → (compatible_with t t ≡ true)
      × (compatible_with t u ≡ compatible_with u t)
      × (same_qualified_type t u ≡ true → compatible_with t u ≡ true)
unfolding compatible_with same_qualified_type same_shape
compatible_with_laws t u = (
  ground (arith, qualifiers_refl true (qualifiers t), shape_refl true compatible t),
  ground (arith, qualifiers_sym true (qualifiers t) (qualifiers u), shape_sym true compatible t u),
  and_mono _ _ _ _ (λ e. e) (shape_weaken true t u),
)
