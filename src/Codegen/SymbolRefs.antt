-- ===== src/Codegen/SymbolRefs.antt =====
-- src/codegen/SymbolRefs.h and SymbolRefs.cpp: the values that an instruction uses and defines. The
-- source keeps two ids of each at most, in an array; here they are lists of any length.
pub mod Fit
use trans.Prelude.{ℕ, Bool, true, false, Option, none, some, List, [], ◌∷◌, ◌++◌, if◌then◌else◌}
use trans.Codegen.Instruction.{
  Op, add, sub, mul, div, modulo, and, or, xor, shl, shr, unary_minus, unary_not, inc, dec, assign,
  widen, assign_constant, assign_label_address, lvalue_assign, address_of, dereference,
  index_address, field_address, copy_part, pointer_offset, pointer_add, pointer_diff,
  function_address, value_compare, zero_compare, jump, label, argument, call, retrieve, return,
  void_return, va_start, va_arg, va_end, va_copy, bswap, ctz, alloca, Instruction, is_lea_object,
}

pub record SymbolRefs : Type 0 where
  pub uses : List ℕ
  pub defs : List ℕ
  pub is_param : Bool
  pub is_call : Bool
  pub address_of_base : Option ℕ

-- `addUse` and `addDef`: `kNoSymbol` adds nothing.
abbrev pub id_list : Option ℕ → List ℕ
id_list none = []
id_list (some n) = n ∷ []

abbrev refs : List ℕ → List ℕ → SymbolRefs
refs us ds = record {
  uses = us;
  defs = ds;
  is_param = false;
  is_call = false;
  address_of_base = none;
}

abbrev binary : Instruction → SymbolRefs
binary i = refs (id_list i.arg0 ++ id_list i.arg1) (id_list i.result)

abbrev unary : Instruction → SymbolRefs
unary i = refs (id_list i.arg0) (id_list i.result)

-- The base of an address whose instruction takes the address of the object itself.
abbrev lea_base : Instruction → Option ℕ
lea_base i = if is_lea_object i.base_mode then i.arg0 else none

abbrev refs_of : Op → Instruction → SymbolRefs
refs_of add i = binary i
refs_of sub i = binary i
refs_of mul i = binary i
refs_of div i = binary i
refs_of modulo i = binary i
refs_of and i = binary i
refs_of or i = binary i
refs_of xor i = binary i
refs_of shl i = binary i
refs_of shr i = binary i
refs_of value_compare i = binary i
refs_of pointer_offset i = binary i
refs_of pointer_diff i = binary i
refs_of pointer_add i = binary i
refs_of index_address i = record (binary i) { address_of_base = lea_base i }
refs_of assign i = unary i
refs_of unary_minus i = unary i
refs_of unary_not i = unary i
refs_of copy_part i = unary i
refs_of widen i = unary i
refs_of bswap i = unary i
refs_of ctz i = unary i
refs_of alloca i = unary i
refs_of assign_constant i = refs [] (id_list i.result)
refs_of assign_label_address i = refs [] (id_list i.result)
refs_of function_address i = refs [] (id_list i.result)
refs_of address_of i = record (unary i) { address_of_base = i.arg0 }
refs_of lvalue_assign i = refs (id_list i.arg0 ++ id_list i.result) []
refs_of dereference i = unary i
refs_of field_address i = record (unary i) { address_of_base = lea_base i }
refs_of inc i = refs (id_list i.arg0) (id_list i.arg0)
refs_of dec i = refs (id_list i.arg0) (id_list i.arg0)
refs_of zero_compare i = refs (id_list i.arg0) []
refs_of jump i = refs [] []
refs_of label i = refs [] []
refs_of void_return i = refs [] []
refs_of va_end i = refs [] []
refs_of argument i = record (refs (id_list i.arg0) []) { is_param = true }
refs_of call i =
    record (refs ((if i.call_indirect then id_list i.arg0 else []) ++ id_list i.memory_return_dest)
      []) { is_call = true }
refs_of retrieve i = refs [] (id_list i.result)
refs_of return i = refs (id_list i.arg0) []
refs_of va_start i = refs (id_list i.arg0 ++ id_list i.arg1) []
refs_of va_arg i = unary i
refs_of va_copy i = refs (id_list i.arg0 ++ id_list i.arg1) []

unfoldable pub collect_symbol_refs : Instruction → SymbolRefs
collect_symbol_refs i = refs_of i.op i
