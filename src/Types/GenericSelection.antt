-- ===== src/Types/GenericSelection.antt =====
-- src/types/TypeQuery.h and TypeQuery.cpp: the selection of a `_Generic` association.
pub mod Choice
use trans.Prelude.{ℕ, suc, Bool, true, false, Option, none, some, List, [], ◌∷◌}
use trans.Types.CType.{CType}
use trans.Types.Compatibility.{same_qualified_type}

pub data GenericSelectionStatus : Type 0 where
  ok no_match multiple_matches : GenericSelectionStatus

pub record GenericSelectionChoice : Type 0 where
  pub status : GenericSelectionStatus
  pub index : Option ℕ

-- `arm_type` is `none` for an arm whose type-name is unresolved.
pub record GenericArmView : Type 0 where
  pub is_default : Bool
  pub arm_type : Option CType

abbrev pub first_or : Option ℕ → ℕ → Option ℕ
first_or none i = some i
first_or (some j) i = some j

abbrev pub chosen : Option ℕ → Option ℕ → GenericSelectionChoice
chosen (some i) d = record { status = ok; index = some i }
chosen none (some d) = record { status = ok; index = some d }
chosen none none = record { status = no_match; index = none }

abbrev pub arm_matches : CType → GenericArmView → Bool
arm_matches controlling arm = elim arm.arm_type [
  | none ↦ false
  | some t ↦ same_qualified_type t controlling
]

-- The loop over the arms from index `i`.
unfoldable pub select_from :
    CType → List GenericArmView → ℕ → Option ℕ → Option ℕ → GenericSelectionChoice
select_from controlling [] i default_index match_index = chosen match_index default_index
select_from controlling (arm ∷ arms) i default_index match_index = elim arm.is_default [
  | true ↦ select_from controlling arms (suc i) (first_or default_index i) match_index
  | false ↦ elim (arm_matches controlling arm) [
    | true ↦ elim match_index [
      | some j ↦ record { status = multiple_matches; index = none }
      | none ↦ select_from controlling arms (suc i) default_index (some i)
    ]
    | false ↦ select_from controlling arms (suc i) default_index match_index
  ]
]

unfoldable pub select_generic_association : CType → List GenericArmView → GenericSelectionChoice
unfolding select_from
select_generic_association controlling arms = select_from controlling arms 0 none none
