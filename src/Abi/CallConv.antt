-- ===== src/Abi/CallConv.antt =====
-- src/codegen/SysVCallConv.h: argument registers and stack slots of a call. An assignment lists the
-- slot and the register index of each eightbyte in place of two arrays with a count.
pub mod Registers
pub mod StackSlots
pub mod HandOut
use trans.Prelude.{
  ℕ, suc, ◌+◌, ◌*◌, Bool, true, false, not, List, [], ◌∷◌, ◌++◌, ltb, ◌||◌, if◌then◌else◌,
}
use trans.Abi.Words.{machine_word_size, stack_alignment, value_words, align_up}
use trans.Abi.Classes.{
  Class, Classification, in_registers, integer_eightbytes, sse_eightbytes, eightbytes, is_integer,
}

pub data SysVArgSlot : Type 0 where
  integer_reg sse_reg stack : SysVArgSlot

pub record SysVArgCounts : Type 0 where
  pub integer_regs : ℕ
  pub sse_regs : ℕ

pub record SysVArgAssignment : Type 0 where
  pub on_stack : Bool
  pub slots : List (SysVArgSlot × ℕ)

abbrev pub sysv_integer_arg_regs : ℕ
sysv_integer_arg_regs = 6

abbrev pub sysv_sse_arg_regs : ℕ
sysv_sse_arg_regs = 8

abbrev pub sysv_gp_save_size : ℕ
sysv_gp_save_size = sysv_integer_arg_regs * machine_word_size

abbrev pub sysv_xmm_save_stride : ℕ
sysv_xmm_save_stride = 16

unfoldable pub sysv_named_gp_offset : SysVArgCounts → ℕ
sysv_named_gp_offset used =
    (if ltb used.integer_regs sysv_integer_arg_regs
      then used.integer_regs
      else sysv_integer_arg_regs)
    * machine_word_size

unfoldable pub sysv_named_fp_offset : SysVArgCounts → ℕ
sysv_named_fp_offset used =
    sysv_gp_save_size
    + (if ltb used.sse_regs sysv_sse_arg_regs then used.sse_regs else sysv_sse_arg_regs)
      * sysv_xmm_save_stride

-- The loop over the eightbytes: each takes the next register of its kind.
unfoldable pub assign_eightbytes :
    List Class → SysVArgCounts → List (SysVArgSlot × ℕ) × SysVArgCounts
assign_eightbytes [] used = ([], used)
assign_eightbytes (k ∷ ks) used =
    let i = is_integer k in
    let slot = if i then (integer_reg, used.integer_regs) else (sse_reg, used.sse_regs) in
    let used' =
      if i
      then record used { integer_regs = used.integer_regs + 1 }
      else record used { sse_regs = used.sse_regs + 1 } in
    let rest = assign_eightbytes ks used' in (slot ∷ rest.0, rest.1)

abbrev pub assigned_to_stack : SysVArgAssignment
assigned_to_stack = record { on_stack = true; slots = [] }

unfoldable pub assign_sysv_arg :
    Classification → SysVArgCounts → ℕ → SysVArgAssignment × SysVArgCounts
assign_sysv_arg cls used max_integer_regs =
    if not (in_registers cls)
    then (assigned_to_stack, used)
    else if ltb max_integer_regs (used.integer_regs + integer_eightbytes cls)
        || ltb sysv_sse_arg_regs (used.sse_regs + sse_eightbytes cls)
    then (assigned_to_stack, used)
    else (let taken = assign_eightbytes (eightbytes cls) used in
        (record { on_stack = false; slots = taken.0 }, taken.1))

-- The loop that `emitCallArguments` runs over the arguments of a call: the assignments in order,
-- and the registers used.
unfoldable pub assign_arguments :
    List Classification → SysVArgCounts → ℕ → List SysVArgAssignment × SysVArgCounts
assign_arguments [] used limit = ([], used)
assign_arguments (cls ∷ rest) used limit =
    let one = assign_sysv_arg cls used limit in
    let others = assign_arguments rest one.1 limit in (one.0 ∷ others.0, others.1)

pub record SysVStackArg : Type 0 where
  pub size_bytes : ℕ
  pub align_bytes : ℕ

pub record Slot : Type 0 where
  pub offset_bytes : ℕ
  pub size_bytes : ℕ

pub record SysVStackLayout : Type 0 where
  pub slots : List Slot
  pub total_bytes : ℕ
  pub end_offset : ℕ

unfoldable pub slot_align : SysVStackArg → ℕ
slot_align arg =
    if ltb machine_word_size arg.align_bytes then stack_alignment else machine_word_size

unfoldable pub slot_size : SysVStackArg → ℕ
slot_size arg = value_words arg.size_bytes * machine_word_size

-- The loop over the stack arguments, from an offset: the slots, and the offset after them.
unfoldable pub layout_slots : List SysVStackArg → ℕ → List Slot × ℕ
layout_slots [] off = ([], off)
layout_slots (arg ∷ args) off =
    let start = align_up off (slot_align arg) in
    let rest = layout_slots args (start + slot_size arg) in
    (record { offset_bytes = start; size_bytes = slot_size arg } ∷ rest.0, rest.1)

unfoldable pub layout_sysv_stack_args : List SysVStackArg → SysVStackLayout
layout_sysv_stack_args args =
    let laid = layout_slots args 0 in
    record { slots = laid.0; end_offset = laid.1; total_bytes = align_up laid.1 stack_alignment }
