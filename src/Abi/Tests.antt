-- ===== src/Abi/Tests.antt =====
-- The theorems about src/types/ObjectAbi.h, SysVClass.h, SysVClassify.cpp and
-- src/codegen/SysVCallConv.h at concrete sizes, classes and arguments.
use trans.Prelude.{◌+◌, ◌*◌, ◌%◌, ◌≤◌, ◌<◌, ◌≡◌, refl, true, List, [], ◌∷◌, arith}
use trans.Abi.Words.{align_up}
use trans.Abi.Words.Align.{align_up_least}
use trans.Abi.Classes.{
  no_class, integer, sse, memory, merge, post_merge, Classification, unclassified, in_registers,
  integer_eightbytes, sse_eightbytes,
}
use trans.Abi.Classes.Merge.{merge_laws, IsMerged, post_merge-IsMerged}
use trans.Abi.CallConv.{
  SysVArgCounts, assign_sysv_arg, assign_arguments, SysVStackArg, layout_sysv_stack_args,
}
use trans.Abi.CallConv.Registers.{HandsOut, all_slots, assign_arguments_lem}
use trans.Abi.CallConv.HandOut.{registers_of, taken_or_stack, assign_sysv_arg-hand_out}
use trans.Abi.CallConv.StackSlots.{Placed, layout-Placed}

align_up_least_example :
    (align_up 13 8 % 8 ≡ 0) × (13 ≤ align_up 13 8) × (13 ≤ 2 * 8 → align_up 13 8 ≤ 2 * 8)
align_up_least_example = align_up_least 13 8 2 (omega arith)

merge_laws_example :
    (merge integer sse ≡ merge sse integer)
    × (merge integer integer ≡ integer)
    × (merge no_class integer ≡ integer)
    × (merge memory integer ≡ memory)
merge_laws_example = merge_laws integer sse

post_merge-IsMerged_example :
    IsMerged 24 (post_merge 24 integer sse).0 (post_merge 24 integer sse).1
post_merge-IsMerged_example = post_merge-IsMerged 24 integer sse

-- A structure of a `long` and a `double`.
abbrev mixed : Classification
mixed = record unclassified { eightbyte0 = integer; eightbyte1 = sse; count = 2; align_bytes = 8 }

abbrev five_used : SysVArgCounts
five_used = record { integer_regs = 5; sse_regs = 8 }

abbrev none_used : SysVArgCounts
none_used = record { integer_regs = 0; sse_regs = 0 }

abbrev three_arguments : List Classification
three_arguments = mixed ∷ mixed ∷ mixed ∷ []

assign_arguments_lem_example :
    HandsOut none_used
      (assign_arguments three_arguments none_used 6).1
      (all_slots (assign_arguments three_arguments none_used 6).0)
    × ((assign_arguments three_arguments none_used 6).1.integer_regs ≤ 6)
    × ((assign_arguments three_arguments none_used 6).1.sse_regs ≤ 8)
assign_arguments_lem_example =
    assign_arguments_lem three_arguments none_used 6 (omega arith) (omega arith)

assign_sysv_arg-hand_out_example :
    assign_sysv_arg mixed five_used 6 ≡ taken_or_stack (registers_of mixed five_used 6) five_used
assign_sysv_arg-hand_out_example =
    assign_sysv_arg-hand_out mixed five_used 6 (omega arith) (omega arith)

-- A `char` and a `long double` on the stack.
abbrev two_on_stack : List SysVStackArg
two_on_stack =
    record { size_bytes = 1; align_bytes = 1 } ∷ record { size_bytes = 16; align_bytes = 16 } ∷ []

layout-Placed_example :
    Placed two_on_stack 0
      (layout_sysv_stack_args two_on_stack).slots
      (layout_sysv_stack_args two_on_stack).end_offset
    × ((layout_sysv_stack_args two_on_stack).total_bytes % 16 ≡ 0)
    × ((layout_sysv_stack_args two_on_stack).end_offset
        ≤ (layout_sysv_stack_args two_on_stack).total_bytes)
    × ((layout_sysv_stack_args two_on_stack).total_bytes
        < (layout_sysv_stack_args two_on_stack).end_offset + 16)
layout-Placed_example = layout-Placed two_on_stack

-- The fifth and the sixth integer register are left for a structure of two words, the seventh is
-- not; the second of two stack arguments is moved to a multiple of 16.
stays : (assign_sysv_arg mixed five_used 6).0.on_stack ≡ true
unfolding assign_sysv_arg in_registers integer_eightbytes sse_eightbytes
stays = refl
