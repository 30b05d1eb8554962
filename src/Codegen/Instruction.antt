-- ===== src/Codegen/Instruction.antt =====
-- src/codegen/Instruction.h and Instruction.cpp: instructions, their classes and the fields each may
-- set. An id is a number or, for `kNoSymbol`, `none`; the live fields are a list, not a mask.
pub mod Contract
use trans.Prelude.{
  ℕ, Bool, true, false, not, Option, none, some, List, [], ◌∷◌, ◌&&◌, ◌||◌, ◌==◌, ℤ, pos, is_zero,
}

pub data Op : Type 0 where
  add sub mul div modulo and or xor shl shr unary_minus unary_not inc dec assign widen : Op
  assign_constant assign_label_address lvalue_assign address_of dereference index_address : Op
  field_address copy_part pointer_offset pointer_add pointer_diff function_address : Op
  value_compare zero_compare jump label argument call retrieve return void_return : Op
  va_start va_arg va_end va_copy bswap ctz alloca : Op

pub data JumpCondition : Type 0 where
  if_equal if_not_equal if_below if_above if_below_or_equal if_above_or_equal : JumpCondition
  unconditional : JumpCondition

pub data AddressBaseMode : Type 0 where
  lea_object pointer_value : AddressBaseMode

pub record Instruction : Type 0 where
  pub op : Op
  pub arg0 : Option ℕ
  pub arg1 : Option ℕ
  pub result : Option ℕ
  pub imm : ℤ
  pub cond : JumpCondition
  pub base_mode : AddressBaseMode
  pub call_indirect : Bool
  pub pointer_subtract : Bool
  pub memory_return_dest : Option ℕ
  pub memory_return : Bool

-- An instruction whose other fields are at their defaults.
abbrev pub plain : Op → Instruction
plain o = record {
  op = o;
  arg0 = none;
  arg1 = none;
  result = none;
  imm = pos 0;
  cond = unconditional;
  base_mode = lea_object;
  call_indirect = false;
  pointer_subtract = false;
  memory_return_dest = none;
  memory_return = false;
}

-- `ir::label`.
abbrev pub label_instruction : ℕ → Instruction
label_instruction name = record (plain label) { arg0 = some name }

pub data InstructionClass : Type 0 where
  labels terminator ordinary : InstructionClass

pub data Field : Type 0 where
  arg0 arg1 result imm cond base_mode call_indirect pointer_subtract memory_return_dest : Field
  memory_return : Field

abbrev pub is_field : Field → Field → Bool
is_field Field.arg0 Field.arg0 = true
is_field Field.arg1 Field.arg1 = true
is_field Field.result Field.result = true
is_field Field.imm Field.imm = true
is_field Field.cond Field.cond = true
is_field Field.base_mode Field.base_mode = true
is_field Field.call_indirect Field.call_indirect = true
is_field Field.pointer_subtract Field.pointer_subtract = true
is_field Field.memory_return_dest Field.memory_return_dest = true
is_field Field.memory_return Field.memory_return = true
is_field _ _ = false

abbrev pub has_field : List Field → Field → Bool
has_field [] f = false
has_field (g ∷ gs) f = is_field g f || has_field gs f

pub record OpContract : Type 0 where
  pub kind : InstructionClass
  pub live : List Field

abbrev contract : InstructionClass → List Field → OpContract
contract k fs = record { kind = k; live = fs }

-- The fields of an operation on two values, and of one on a single value.
abbrev binary : List Field
binary = Field.arg0 ∷ Field.arg1 ∷ Field.result ∷ []

abbrev unary : List Field
unary = Field.arg0 ∷ Field.result ∷ []

unfoldable pub op_contract : Op → OpContract
op_contract add = contract ordinary binary
op_contract sub = contract ordinary binary
op_contract mul = contract ordinary binary
op_contract and = contract ordinary binary
op_contract or = contract ordinary binary
op_contract xor = contract ordinary binary
op_contract shl = contract ordinary binary
op_contract assign_constant = contract ordinary binary
op_contract div = contract ordinary (Field.imm ∷ binary)
op_contract modulo = contract ordinary (Field.imm ∷ binary)
op_contract shr = contract ordinary (Field.imm ∷ binary)
op_contract pointer_diff = contract ordinary (Field.imm ∷ binary)
op_contract unary_minus = contract ordinary unary
op_contract unary_not = contract ordinary unary
op_contract assign = contract ordinary (Field.imm ∷ unary)
op_contract lvalue_assign = contract ordinary unary
op_contract dereference = contract ordinary unary
op_contract address_of = contract ordinary unary
op_contract assign_label_address = contract ordinary unary
op_contract function_address = contract ordinary unary
op_contract alloca = contract ordinary unary
op_contract va_arg = contract ordinary unary
op_contract inc = contract ordinary (Field.arg0 ∷ Field.imm ∷ [])
op_contract dec = contract ordinary (Field.arg0 ∷ Field.imm ∷ [])
op_contract widen = contract ordinary (Field.imm ∷ unary)
op_contract bswap = contract ordinary (Field.imm ∷ unary)
op_contract ctz = contract ordinary (Field.imm ∷ unary)
op_contract index_address = contract ordinary (Field.imm ∷ Field.base_mode ∷ binary)
op_contract field_address = contract ordinary (Field.imm ∷ Field.base_mode ∷ unary)
op_contract copy_part = contract ordinary (Field.imm ∷ unary)
op_contract value_compare = contract ordinary (Field.arg0 ∷ Field.arg1 ∷ Field.imm ∷ [])
op_contract pointer_offset = contract ordinary (Field.imm ∷ Field.pointer_subtract ∷ binary)
op_contract pointer_add = contract ordinary (Field.imm ∷ unary)
op_contract zero_compare = contract ordinary (Field.arg0 ∷ [])
op_contract argument = contract ordinary (Field.arg0 ∷ [])
op_contract label = contract labels (Field.arg0 ∷ [])
op_contract jump = contract terminator (Field.arg0 ∷ Field.cond ∷ Field.imm ∷ [])
op_contract return = contract terminator (Field.arg0 ∷ [])
op_contract call =
    contract ordinary (Field.arg0 ∷ Field.call_indirect ∷ Field.memory_return_dest ∷ [])
op_contract retrieve = contract ordinary (Field.result ∷ Field.memory_return ∷ [])
op_contract void_return = contract terminator []
op_contract va_end = contract ordinary []
op_contract va_start = contract ordinary (Field.arg0 ∷ Field.arg1 ∷ [])
op_contract va_copy = contract ordinary (Field.arg0 ∷ Field.arg1 ∷ [])

unfoldable pub instruction_class : Op → InstructionClass
unfolding op_contract
instruction_class o = (op_contract o).kind

abbrev pub is_terminator : InstructionClass → Bool
is_terminator terminator = true
is_terminator _ = false

unfoldable pub transfers_control : Instruction → Bool
unfolding instruction_class
transfers_control i = is_terminator (instruction_class i.op)

-- Whether a field has its default value.
abbrev pub is_none : Option ℕ → Bool
is_none none = true
is_none (some n) = false

abbrev pub is_unconditional : JumpCondition → Bool
is_unconditional unconditional = true
is_unconditional _ = false

abbrev pub is_lea_object : AddressBaseMode → Bool
is_lea_object lea_object = true
is_lea_object pointer_value = false

-- `rejectIfUnused`: false where the compiler ends with an internal error.
abbrev pub field_ok : List Field → Field → Bool → Bool
field_ok live f at_default = has_field live f || at_default

unfoldable pub validate_instruction : Instruction → Bool
unfolding op_contract
validate_instruction i =
    let live = (op_contract i.op).live in
    field_ok live Field.arg0 (is_none i.arg0)
    && (field_ok live Field.arg1 (is_none i.arg1)
        && (field_ok live Field.result (is_none i.result)
            && (field_ok live Field.imm (is_zero i.imm)
                && (field_ok live Field.cond (is_unconditional i.cond)
                    && (field_ok live Field.base_mode (is_lea_object i.base_mode)
                        && (field_ok live Field.call_indirect (not i.call_indirect)
                            && (field_ok live Field.pointer_subtract (not i.pointer_subtract)
                                && (field_ok live Field.memory_return_dest
                                      (is_none i.memory_return_dest)
                                    && field_ok live Field.memory_return
                                        (not i.memory_return)))))))))
