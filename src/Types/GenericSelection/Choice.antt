-- ===== src/Types/GenericSelection/Choice.antt =====
-- src/types/TypeQuery.cpp: what `selectGenericAssociation` chooses.
use trans.Prelude.{
  ℕ, suc, ◌≡◌, refl, true, false, Option, none, some, List, [], ◌∷◌, ◌++◌, Bool-cases, inl, inr,
}
use trans.Types.CType.{CType}
use trans.Types.GenericSelection.{
  GenericSelectionChoice, GenericSelectionStatus, GenericArmView, arm_matches, first_or, chosen,
  select_from, select_generic_association,
}

-- The arms from `i` on that are no default and match, and the first default arm.
abbrev pub matching : CType → List GenericArmView → ℕ → List ℕ
matching controlling [] i = []
matching controlling (arm ∷ arms) i = elim arm.is_default [
  | true ↦ matching controlling arms (suc i)
  | false ↦ elim (arm_matches controlling arm) [
    | true ↦ i ∷ matching controlling arms (suc i)
    | false ↦ matching controlling arms (suc i)
  ]
]

abbrev pub first_default : List GenericArmView → ℕ → Option ℕ
first_default [] i = none
first_default (arm ∷ arms) i = elim arm.is_default [
  | true ↦ some i
  | false ↦ first_default arms (suc i)
]

-- The choice that C prescribes: the one arm that matches, or else the default arm.
abbrev pub prescribed : List ℕ → Option ℕ → GenericSelectionChoice
prescribed [] (some d) = record { status = GenericSelectionStatus.ok; index = some d }
prescribed [] none = record { status = GenericSelectionStatus.no_match; index = none }
prescribed (m ∷ []) d = record { status = GenericSelectionStatus.ok; index = some m }
prescribed (m ∷ n ∷ ms) d = record {
  status = GenericSelectionStatus.multiple_matches;
  index = none;
}

abbrev or_first : Option ℕ → Option ℕ → Option ℕ
or_first none d = d
or_first (some c) d = some c

abbrev listed : Option ℕ → List ℕ
listed none = []
listed (some m) = m ∷ []

chosen_lem : (m d : Option ℕ) → chosen m d ≡ prescribed (listed m ++ []) (or_first d none)
chosen_lem (some m) d = refl
chosen_lem none (some d) = refl
chosen_lem none none = refl

or_first_lem : (d e : Option ℕ) (i : ℕ) → or_first (first_or d i) e ≡ or_first d (some i)
or_first_lem none e i = refl
or_first_lem (some c) e i = refl

matched :
    (m : Option ℕ) (rest : GenericSelectionChoice) (i : ℕ) (ms : List ℕ) (d : Option ℕ)
    → rest ≡ prescribed (i ∷ ms) d
    → (elim m [
      | some j ↦ record { status = GenericSelectionStatus.multiple_matches; index = none }
      | none ↦ rest
    ])
      ≡ prescribed (listed m ++ i ∷ ms) d
matched none rest i ms d h = h
matched (some j) rest i ms d h = refl

select_from_lem :
    (controlling : CType) (arms : List GenericArmView) (i : ℕ) (d m : Option ℕ)
    → select_from controlling arms i d m
      ≡ prescribed (listed m ++ matching controlling arms i) (or_first d (first_default arms i))
unfolding select_from
select_from_lem controlling [] i d m = chosen_lem m d
select_from_lem controlling (arm ∷ arms) i d m = elim (Bool-cases arm.is_default) [
  | inl e ↦
      rw (e, select_from, matching, first_default)
        (rw⁻¹ (or_first_lem d (first_default arms (suc i)) i)
          (select_from_lem controlling arms (suc i) (first_or d i) m))
  | inr e ↦ elim (Bool-cases (arm_matches controlling arm)) [
    | inr n ↦
        rw (e, n, select_from, matching, first_default)
          (select_from_lem controlling arms (suc i) d m)
    | inl y ↦
        rw (e, y, select_from, matching, first_default)
          (matched m _ i _ _ (select_from_lem controlling arms (suc i) d (some i)))
  ]
]

-- The association selected is the one arm other than `default` whose type is the same qualified type
-- as the controlling expression's, where there is exactly one such arm; the first `default` where
-- there is none; and an error otherwise.
pub select_generic_association_lem :
    (controlling : CType) (arms : List GenericArmView)
    → select_generic_association controlling arms
      ≡ prescribed (matching controlling arms 0) (first_default arms 0)
unfolding select_generic_association
select_generic_association_lem controlling arms = select_from_lem controlling arms 0 none none
