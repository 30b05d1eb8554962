-- ===== src/Abi/CallConv/StackSlots.antt =====
-- src/codegen/SysVCallConv.h: stack arguments lie in order, apart and aligned.
use trans.Prelude.{ℕ, ◌+◌, ◌%◌, ◌≤◌, ◌<◌, ◌≡◌, List, [], ◌∷◌, arith}
use trans.Abi.Words.{align_up}
use trans.Abi.Words.Align.{align_up-mod, align_up_bounds, value_words_least}
use trans.Abi.CallConv.{
  SysVStackArg, Slot, slot_align, slot_size, layout_slots, layout_sysv_stack_args,
}

-- The slots from an offset on: each begins at or after the end of the one before, at a multiple of
-- 8 and of 16 if its argument asks for more than 8, holds its argument, and the last ends at `stop`.
pub data Placed : List SysVStackArg → ℕ → List Slot → ℕ → Type 0 where
  done : {from : ℕ} → Placed [] from [] from
  next :
      {arg : SysVStackArg} {args : List SysVStackArg} {from stop : ℕ} {slot : Slot}
      {slots : List Slot}
      → from ≤ slot.offset_bytes
      → slot.offset_bytes % 8 ≡ 0
      → (8 < arg.align_bytes → slot.offset_bytes % 16 ≡ 0)
      → arg.size_bytes ≤ slot.size_bytes
      → Placed args (slot.offset_bytes + slot.size_bytes) slots stop
      → Placed (arg ∷ args) from (slot ∷ slots) stop

slot_from : (off : ℕ) (arg : SysVStackArg) → off ≤ align_up off (slot_align arg)
unfolding slot_align align_up
slot_from off arg = ground arith

slot_word : (off : ℕ) (arg : SysVStackArg) → align_up off (slot_align arg) % 8 ≡ 0
unfolding slot_align align_up
slot_word off arg = ground arith

slot_pair :
    (off : ℕ) (arg : SysVStackArg) → 8 < arg.align_bytes → align_up off (slot_align arg) % 16 ≡ 0
unfolding slot_align align_up
slot_pair off arg h = ground arith

layout_slots-Placed :
    (args : List SysVStackArg) (off : ℕ)
    → Placed args off (layout_slots args off).0 (layout_slots args off).1
unfolding layout_slots slot_size
layout_slots-Placed [] off = done
layout_slots-Placed (arg ∷ args) off =
    next (slot_from off arg) (slot_word off arg) (slot_pair off arg)
      (value_words_least arg.size_bytes 0).1 (layout_slots-Placed args _)

-- The slots of a call's stack arguments are placed in order, apart and aligned from offset 0, and
-- the space reserved is a multiple of 16 that holds them with less than 16 bytes to spare.
pub layout-Placed :
    (args : List SysVStackArg)
    → Placed args 0 (layout_sysv_stack_args args).slots (layout_sysv_stack_args args).end_offset
      × ((layout_sysv_stack_args args).total_bytes % 16 ≡ 0)
      × ((layout_sysv_stack_args args).end_offset ≤ (layout_sysv_stack_args args).total_bytes)
      × ((layout_sysv_stack_args args).total_bytes < (layout_sysv_stack_args args).end_offset + 16)
unfolding layout_sysv_stack_args
layout-Placed args =
    let e = (layout_slots args 0).1 in
    let up = align_up_bounds e 16 (omega arith) in
    (layout_slots-Placed args 0, align_up-mod e 16 (omega arith), up.0, up.1)
