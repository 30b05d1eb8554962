-- ===== src/Scanner/Tables.antt =====
-- src/scanner/IdentifierTable.cpp, ParseTypeTable.cpp and EnumConstantRegistry.cpp: scopes of names. A
-- name is its id, `none` for `kNoName`. The scopes of a table are the innermost one and the others,
-- from the inside out: no table is ever without a scope.
use trans.Prelude.{
  ℕ, ◌+◌, ◌%◌, ◌^◌, length, Bool, true, false, Option, none, some, List, [], ◌∷◌, ◌==◌,
  if◌then◌else◌,
}
use trans.Types.CType.{CType}

abbrev pub Entries {ℓ} : Type ℓ → Type ℓ
Entries A = List (ℕ × A)

module _ {ℓ} {A : Type ℓ} where
  abbrev pub find_entry : Entries A → ℕ → Option A
  find_entry [] id = none
  find_entry ((key, a) ∷ rest) id = if key == id then some a else find_entry rest id

  -- `insert_or_assign`.
  abbrev pub put : Entries A → ℕ → A → Entries A
  put [] id a = (id, a) ∷ []
  put ((key, b) ∷ rest) id a = if key == id then (key, a) ∷ rest else (key, b) ∷ put rest id a

  abbrev pub put_all : Entries A → Entries A → Entries A
  put_all scope [] = scope
  put_all scope ((id, a) ∷ rest) = put_all (put scope id a) rest

  -- The loop from the innermost scope outwards.
  abbrev pub find_scope : List (Entries A) → ℕ → Option A
  find_scope [] id = none
  find_scope (scope ∷ rest) id = elim (find_entry scope id) [
    | some a ↦ some a
    | none ↦ find_scope rest id
  ]

abbrev pub member : List ℕ → ℕ → Bool
member [] id = false
member (m ∷ ms) id = if m == id then true else member ms id

abbrev pub add_id : List ℕ → ℕ → List ℕ
add_id ids id = if member ids id then ids else id ∷ ids

abbrev pub erase_id : List ℕ → ℕ → List ℕ
erase_id [] id = []
erase_id (m ∷ ms) id = if m == id then erase_id ms id else m ∷ erase_id ms id

pub record Scope : Type 0 where
  pub typedefs : Entries CType
  pub shadows : List ℕ

pub record IdentifierTable : Type 0 where
  pub innermost : Scope
  pub outer : List Scope
  pub pending_shadows : List ℕ
  pub revision : ℕ

-- `++revision_`, on an `unsigned`.
abbrev pub next_revision : ℕ → ℕ
next_revision n = (n + 1) % 2 ^ 32

abbrev pub empty_scope : Scope
empty_scope = record { typedefs = []; shadows = [] }

unfoldable pub add_typedef : IdentifierTable → Option ℕ → CType → IdentifierTable
add_typedef t none type = t
add_typedef t (some id) type = record t {
  innermost = record {
    typedefs = put t.innermost.typedefs id type;
    shadows = erase_id t.innermost.shadows id;
  };
  revision = next_revision t.revision;
}

unfoldable pub add_identifier_shadow : IdentifierTable → Option ℕ → IdentifierTable
add_identifier_shadow t none = t
add_identifier_shadow t (some id) = record t {
  innermost = record t.innermost { shadows = add_id t.innermost.shadows id };
  revision = next_revision t.revision;
}

abbrev pub is_shadow : List Scope → ℕ → Bool
is_shadow [] id = false
is_shadow (s ∷ rest) id =
    if member s.shadows id
    then true
    else elim (find_entry s.typedefs id) [ some t ↦ false | none ↦ is_shadow rest id ]

unfoldable pub is_identifier_shadow : IdentifierTable → Option ℕ → Bool
is_identifier_shadow t none = false
is_identifier_shadow t (some id) = is_shadow (t.innermost ∷ t.outer) id

abbrev pub find_typedef : List Scope → ℕ → Option CType
find_typedef [] id = none
find_typedef (s ∷ rest) id = elim (find_entry s.typedefs id) [
  | some t ↦ some t
  | none ↦ find_typedef rest id
]

unfoldable pub lookup_typedef : IdentifierTable → Option ℕ → Option CType
lookup_typedef t none = none
lookup_typedef t (some id) = find_typedef (t.innermost ∷ t.outer) id

unfoldable pub add_pending_parameter_shadow : IdentifierTable → Option ℕ → IdentifierTable
add_pending_parameter_shadow t none = t
add_pending_parameter_shadow t (some id) = record t {
  pending_shadows = add_id t.pending_shadows id;
}

abbrev pub flush_shadows : IdentifierTable → List ℕ → IdentifierTable
flush_shadows t [] = record t { pending_shadows = [] }
flush_shadows t (id ∷ ids) =
    flush_shadows
      (record t {
        innermost = record t.innermost { shadows = add_id t.innermost.shadows id };
        revision = next_revision t.revision;
      })
      ids

unfoldable pub enter_names : IdentifierTable → IdentifierTable
enter_names t =
    flush_shadows
      (record t {
        innermost = empty_scope;
        outer = t.innermost ∷ t.outer;
        revision = next_revision t.revision;
      })
      t.pending_shadows

-- The outermost scope is never left.
unfoldable pub leave_names : IdentifierTable → IdentifierTable
leave_names t = elim t.outer [
  | [] ↦ t
  | s ∷ rest ↦ record t { innermost = s; outer = rest; revision = next_revision t.revision }
]

pub record ParseTypeTable : Type 0 where
  pub innermost : Entries CType
  pub outer : List (Entries CType)
  pub pending : Entries CType

unfoldable pub add_type : ParseTypeTable → Option ℕ → CType → ParseTypeTable
add_type t none type = t
add_type t (some id) type = record t { innermost = put t.innermost id type }

unfoldable pub add_pending_type : ParseTypeTable → Option ℕ → CType → ParseTypeTable
add_pending_type t none type = t
add_pending_type t (some id) type = record t { pending = put t.pending id type }

unfoldable pub lookup_type : ParseTypeTable → Option ℕ → Option CType
lookup_type t none = none
lookup_type t (some id) = elim (find_entry t.pending id) [
  | some a ↦ some a
  | none ↦ find_scope (t.innermost ∷ t.outer) id
]

unfoldable pub enter_types : ParseTypeTable → ParseTypeTable
enter_types t = record {
  innermost = put_all [] t.pending;
  outer = t.innermost ∷ t.outer;
  pending = [];
}

unfoldable pub leave_types : ParseTypeTable → ParseTypeTable
leave_types t = elim t.outer [ [] ↦ t | s ∷ rest ↦ record t { innermost = s; outer = rest } ]

-- The number of the scope counts from the outermost; a pending name is one further in.
abbrev pub scope_of : List (Entries CType) → ℕ → Option ℕ
scope_of [] id = none
scope_of (scope ∷ rest) id = elim (find_entry scope id) [
  | some t ↦ some (length rest)
  | none ↦ scope_of rest id
]

unfoldable pub type_binding_depth : ParseTypeTable → Option ℕ → Option ℕ
type_binding_depth t none = none
type_binding_depth t (some id) = elim (find_entry t.pending id) [
  | some a ↦ some (length (t.innermost ∷ t.outer))
  | none ↦ scope_of (t.innermost ∷ t.outer) id
]

unfoldable pub clear_pending : ParseTypeTable → ParseTypeTable
clear_pending t = record t { pending = [] }

unfoldable pub contains_type_in_current_scope : ParseTypeTable → Option ℕ → Bool
contains_type_in_current_scope t none = false
contains_type_in_current_scope t (some id) = elim (find_entry t.innermost id) [
  | some a ↦ true
  | none ↦ false
]
