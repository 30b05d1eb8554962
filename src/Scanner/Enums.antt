-- ===== src/Scanner/Enums.antt =====
-- src/scanner/EnumConstantRegistry.cpp and EnumConstantRegistry.h: enumerators, their scopes and the open
-- bodies of enumerations, the innermost first. `scopes`: what the scopes promise. `bodies`: the range.
pub mod Scopes
pub mod Bodies
use Prim.Native.String.{String}
use trans.Prelude.{
  ℕ, suc, Bool, true, false, Option, none, some, List, [], ◌∷◌, ◌++◌, length, if◌then◌else◌, ℤ, pos,
  ltb_ℤ,
}
use trans.Types.CType.{Heap}
use trans.Types.IntegerConstant.{IntegerConstant, signed_value}
use trans.Types.IntegerConstant.Ranked.{next_enumerator}
use trans.Scanner.Tables.{Entries, find_entry, put, find_scope}

pub record OpenEnumBody : Type 0 where
  pub enumerators : List (String × IntegerConstant)
  pub next : Option IntegerConstant
  pub minimum : ℤ
  pub maximum : ℤ
  pub has_range : Bool

pub record ClosedEnumBody : Type 0 where
  pub enumerators : List (String × IntegerConstant)
  pub has_range : Bool
  pub minimum : ℤ
  pub maximum : ℤ

pub record EnumConstantRegistry : Type 0 where
  pub innermost : Entries IntegerConstant
  pub outer : List (Entries IntegerConstant)
  pub bodies : List OpenEnumBody

unfoldable pub add_enumerator :
    EnumConstantRegistry → Option ℕ → IntegerConstant → EnumConstantRegistry
add_enumerator t none value = t
add_enumerator t (some id) value = record t { innermost = put t.innermost id value }

unfoldable pub lookup_enumerator : EnumConstantRegistry → Option ℕ → Option IntegerConstant
lookup_enumerator t none = none
lookup_enumerator t (some id) = find_scope (t.innermost ∷ t.outer) id

abbrev pub is_some {ℓ} : {A : Type ℓ} → Option A → Bool
is_some none = false
is_some (some a) = true

-- The number of the scope counts from the outermost.
abbrev pub depth_in : List (Entries IntegerConstant) → ℕ → Option ℕ
depth_in [] id = none
depth_in (scope ∷ rest) id =
    if is_some (find_entry scope id) then some (length rest) else depth_in rest id

unfoldable pub binding_depth : EnumConstantRegistry → Option ℕ → Option ℕ
binding_depth t none = none
binding_depth t (some id) = depth_in (t.innermost ∷ t.outer) id

unfoldable pub contains : EnumConstantRegistry → Option ℕ → Bool
unfolding lookup_enumerator
contains t name = is_some (lookup_enumerator t name)

unfoldable pub contains_in_current_scope : EnumConstantRegistry → Option ℕ → Bool
contains_in_current_scope t none = false
contains_in_current_scope t (some id) = is_some (find_entry t.innermost id)

unfoldable pub enter_enums : EnumConstantRegistry → EnumConstantRegistry
enter_enums t = record t { innermost = []; outer = t.innermost ∷ t.outer }

unfoldable pub leave_enums : EnumConstantRegistry → EnumConstantRegistry
leave_enums t = elim t.outer [ [] ↦ t | s ∷ rest ↦ record t { innermost = s; outer = rest } ]

abbrev pub empty_body : OpenEnumBody
empty_body = record {
  enumerators = [];
  next = none;
  minimum = pos 0;
  maximum = pos 0;
  has_range = false;
}

unfoldable pub open_body : EnumConstantRegistry → EnumConstantRegistry
open_body t = record t { bodies = empty_body ∷ t.bodies }

unfoldable pub next_in_current_body : EnumConstantRegistry → Option IntegerConstant
next_in_current_body t = elim t.bodies [ [] ↦ none | body ∷ rest ↦ body.next ]

unfoldable pub record_enumerator : Heap → OpenEnumBody → String → IntegerConstant → OpenEnumBody
unfolding signed_value
record_enumerator heap body name value =
    let v = signed_value value in
    record {
      enumerators = body.enumerators ++ (name, value) ∷ [];
      next = some (next_enumerator heap value);
      minimum = if body.has_range then (if ltb_ℤ v body.minimum then v else body.minimum) else v;
      maximum = if body.has_range then (if ltb_ℤ body.maximum v then v else body.maximum) else v;
      has_range = true;
    }

unfoldable pub record_in_current_body :
    Heap → EnumConstantRegistry → String → IntegerConstant → EnumConstantRegistry
unfolding record_enumerator
record_in_current_body heap t name value = elim t.bodies [
  | [] ↦ t
  | body ∷ rest ↦ record t { bodies = record_enumerator heap body name value ∷ rest }
]

abbrev pub closed_body : OpenEnumBody → ClosedEnumBody
closed_body b = record {
  enumerators = b.enumerators;
  has_range = b.has_range;
  minimum = b.minimum;
  maximum = b.maximum;
}

abbrev pub no_body : ClosedEnumBody
no_body = record { enumerators = []; has_range = false; minimum = pos 0; maximum = pos 0 }

unfoldable pub close_body : EnumConstantRegistry → EnumConstantRegistry × ClosedEnumBody
close_body t = elim t.bodies [
  | [] ↦ (t, no_body)
  | body ∷ rest ↦ (record t { bodies = rest }, closed_body body)
]
