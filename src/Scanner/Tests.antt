-- ===== src/Scanner/Tests.antt =====
-- The theorems about src/scanner/LexicalSession.h at a small file.
use text.Mathlib.TextEquality.{eq_iff}
use Prim.Native.String.{String}
use trans.Prelude.{ℕ, ◌-◌, ◌≡◌, false, some, List, [], ◌∷◌, arith, All}
use trans.Types.IntegerConstant.{IntegerConstant, signed_bits, bits_mod}
use trans.Types.Query.{signed_integer_type}
use trans.Scanner.Intern.{NameIntern, IsTable, Interned, intern, intern_lem}
use trans.Scanner.Enums.{EnumConstantRegistry, lookup_enumerator, open_body, close_body}
use trans.Scanner.Enums.Scopes.{
  ScopeCall, add, enter, leave, performed, specified, after, environment, lookup_enumerator-refines,
}
use trans.Scanner.Enums.Bodies.{record_all, Represented, enumeration-covers}
use trans.Types.CType.{Heap, void, unqualified}
use trans.Scanner.Tables.{empty_scope}
use trans.Scanner.Session.{
  LexicalSession, block, record_frame, enum_body, open_brace, close_brace, run_call, typedef_call,
  pending_shadow_call, enumerator_call,
}
use trans.Scanner.Session.Braces.{
  Balanced, done, call, braces, Restored, block_restores, record_restores,
}

abbrev start : LexicalSession
start = record {
  names = record { innermost = empty_scope; outer = []; pending_shadows = 4 ∷ []; revision = 0 };
  types = record { innermost = []; outer = []; pending = [] };
  enums = record { innermost = []; outer = []; bodies = [] };
  braces = [];
}

-- { typedef void t; enum { e = 5 } ... }
abbrev inside : LexicalSession
inside =
    run_call
      (close_brace (
        open_brace (run_call (open_brace start block) (typedef_call (some 1) (void unqualified)))
          enum_body))
      (enumerator_call (some 2) (record { bits = 5; type = void unqualified }))

inside-Balanced : Balanced (open_brace start block) inside
inside-Balanced = call (typedef_call (some 1) (void unqualified)) (
    braces enum_body done
      (call (enumerator_call (some 2) (record { bits = 5; type = void unqualified })) done))

block_restores_example :
    Restored start (close_brace inside)
    × ((close_brace inside).enums.innermost ≡ start.enums.innermost)
block_restores_example = block_restores start inside inside-Balanced

abbrev in_record : LexicalSession
in_record = run_call (open_brace start record_frame) (pending_shadow_call (some 3))

record_restores_example : Restored start (close_brace in_record)
record_restores_example = record_restores start in_record (call (pending_shadow_call (some 3)) done)

abbrev int_constant : ℕ → IntegerConstant
int_constant n = record { bits = n; type = signed_integer_type }

abbrev no_enums : EnumConstantRegistry
no_enums = record { innermost = []; outer = []; bodies = [] }

-- A name is bound again in a scope that is left.
abbrev scope_calls : List ScopeCall
scope_calls = add 3 (int_constant 1) ∷ enter ∷ add 3 (int_constant 2) ∷ leave ∷ []

lookup_enumerator-refines_example :
    lookup_enumerator (after performed no_enums scope_calls) (some 3)
    ≡ (after specified (environment no_enums) scope_calls).current 3
lookup_enumerator-refines_example = lookup_enumerator-refines no_enums scope_calls 3

abbrev no_records : Heap
no_records i = record {
  members = [];
  size = 0;
  complete = false;
  is_union = false;
  transparent_union = false;
  packed = false;
}

-- enum { a = -1, b = 2147483648 }
abbrev two_enumerators : List (String × IntegerConstant)
two_enumerators = ("a", int_constant (bits_mod - 1)) ∷ ("b", int_constant 2147483648) ∷ []

enumeration-covers_example :
    let (t, closed) = close_body (record_all no_records (open_body no_enums) two_enumerators) in
    (t ≡ no_enums)
    × (closed.enumerators ≡ two_enumerators)
    × All (λ e. Represented no_records closed (signed_bits e.1.bits)) two_enumerators
enumeration-covers_example = enumeration-covers no_records no_enums two_enumerators (omega arith)

abbrev one_name : NameIntern
one_name = ("x", 0) ∷ []

one_name-IsTable : IsTable one_name
one_name-IsTable = record {
  below = λ text id h. ground arith;
  apart = λ a b id h k. ground (arith, eq_iff "x" a, eq_iff "x" b);
}

intern_lem_example : Interned one_name (intern one_name "y").0 "y" (intern one_name "y").1
intern_lem_example = intern_lem one_name "y" one_name-IsTable (ground (arith, eq_iff "y" ""))
