-- ===== src/Scanner/Session.antt =====
-- src/scanner/LexicalSession.h: what the braces of a file do
-- to the tables of names. The calls between the braces are `Call`.
pub mod Braces
use Prim.Native.String.{String}
use trans.Prelude.{ℕ, Bool, false, Option, none, some, List, [], ◌∷◌, ℤ, pos}
use trans.Types.CType.{CType}
use trans.Types.IntegerConstant.{IntegerConstant}
use trans.Scanner.Enums.{EnumConstantRegistry, add_enumerator, enter_enums, leave_enums, open_body}
use trans.Scanner.Tables.{
  Entries, put, find_scope, IdentifierTable, ParseTypeTable, add_typedef, add_identifier_shadow,
  add_pending_parameter_shadow, enter_names, leave_names, add_type, add_pending_type, enter_types,
  leave_types,
}

pub data BraceFrame : Type 0 where
  block record_frame enum_body : BraceFrame

pub record LexicalSession : Type 0 where
  pub names : IdentifierTable
  pub types : ParseTypeTable
  pub enums : EnumConstantRegistry
  pub braces : List BraceFrame

unfoldable pub enter_block : LexicalSession → LexicalSession
enter_block s = record s {
  names = enter_names s.names;
  types = enter_types s.types;
  enums = enter_enums s.enums;
}

unfoldable pub leave_block : LexicalSession → LexicalSession
leave_block s = record s {
  names = leave_names s.names;
  types = leave_types s.types;
  enums = leave_enums s.enums;
}

unfoldable pub enter_record : LexicalSession → LexicalSession
enter_record s = record s { names = enter_names s.names; types = enter_types s.types }

unfoldable pub leave_record : LexicalSession → LexicalSession
leave_record s = record s { names = leave_names s.names; types = leave_types s.types }

unfoldable pub open_brace : LexicalSession → BraceFrame → LexicalSession
unfolding enter_block enter_record open_body
open_brace s block = enter_block (record s { braces = block ∷ s.braces })
open_brace s record_frame = enter_record (record s { braces = record_frame ∷ s.braces })
open_brace s enum_body = record s { braces = enum_body ∷ s.braces; enums = open_body s.enums }

abbrev pub close_frame : LexicalSession → BraceFrame → LexicalSession
close_frame s block = leave_block s
close_frame s record_frame = leave_record s
close_frame s enum_body = s

unfoldable pub close_brace : LexicalSession → LexicalSession
unfolding leave_block leave_record
close_brace s = elim s.braces [
  | [] ↦ leave_block s
  | kind ∷ rest ↦ close_frame (record s { braces = rest }) kind
]

unfoldable pub end_declarators : LexicalSession → LexicalSession
end_declarators s = record s {
  names = record s.names { pending_shadows = [] };
  types = record s.types { pending = [] };
}

-- A call of the parser on the session that is neither brace.
pub data Call : Type 0 where
  typedef_call : Option ℕ → CType → Call
  shadow_call pending_shadow_call : Option ℕ → Call
  type_call pending_type_call : Option ℕ → CType → Call
  enumerator_call : Option ℕ → IntegerConstant → Call
  declarators_call : Call

unfoldable pub run_call : LexicalSession → Call → LexicalSession
unfolding add_typedef add_identifier_shadow add_pending_parameter_shadow add_type add_pending_type
    add_enumerator end_declarators
run_call s (typedef_call id t) = record s { names = add_typedef s.names id t }
run_call s (shadow_call id) = record s { names = add_identifier_shadow s.names id }
run_call s (pending_shadow_call id) = record s { names = add_pending_parameter_shadow s.names id }
run_call s (type_call id t) = record s { types = add_type s.types id t }
run_call s (pending_type_call id t) = record s { types = add_pending_type s.types id t }
run_call s (enumerator_call id v) = record s { enums = add_enumerator s.enums id v }
run_call s declarators_call = end_declarators s
