-- ===== src/Abi/CallConv/HandOut.antt =====
-- src/codegen/SysVCallConv.h: `assignSysVArg` against registers that are taken one at a time.
use trans.Prelude.{
  ℕ, ◌+◌, ◌≤◌, ◌≡◌, refl, Bool, false, Option, none, some, List, [], ◌∷◌, ltb, leb, not, ◌&&◌,
  arith, if◌then◌else◌,
}
use trans.Abi.Classes.{
  Class, Classification, no_class, integer, sse, sse_up, x87, x87_up, complex_x87, memory,
  eightbytes, is_integer, is_sse, in_registers, integer_eightbytes, sse_eightbytes, count_of,
  all_of,
}
use trans.Abi.CallConv.{
  SysVArgSlot, integer_reg, sse_reg, SysVArgCounts, SysVArgAssignment, assigned_to_stack,
  assign_eightbytes, assign_sysv_arg,
}

-- The next register for an eightbyte of a class, where there is one.
abbrev next_register : Class → SysVArgCounts → ℕ → Option ((SysVArgSlot × ℕ) × SysVArgCounts)
next_register integer u limit =
    if ltb u.integer_regs limit
    then some ((integer_reg, u.integer_regs), record u { integer_regs = u.integer_regs + 1 })
    else none
next_register sse u limit =
    if ltb u.sse_regs 8
    then some ((sse_reg, u.sse_regs), record u { sse_regs = u.sse_regs + 1 })
    else none
next_register sse_up u limit =
    if ltb u.sse_regs 8
    then some ((sse_reg, u.sse_regs), record u { sse_regs = u.sse_regs + 1 })
    else none
next_register _ u limit = none

-- Registers for all eightbytes, one after the other, or `none` at the first that gets none.
abbrev hand_out : List Class → SysVArgCounts → ℕ → Option (List (SysVArgSlot × ℕ) × SysVArgCounts)
hand_out [] u limit = some ([], u)
hand_out (k ∷ ks) u limit = elim (next_register k u limit) [
  | none ↦ none
  | some (slot, v) ↦ elim (hand_out ks v limit) [
    | none ↦ none
    | some (slots, w) ↦ some (slot ∷ slots, w)
  ]
]

-- The registers of an argument, or the stack with the counts from before it.
abbrev pub taken_or_stack :
    Option (List (SysVArgSlot × ℕ) × SysVArgCounts)
    → SysVArgCounts
    → SysVArgAssignment × SysVArgCounts
taken_or_stack none u = (assigned_to_stack, u)
taken_or_stack (some (slots, v)) u = (record { on_stack = false; slots = slots }, v)

-- The eightbytes of a class that lies in registers at all.
abbrev in_eightbytes : Classification → Option (List Class)
in_eightbytes c =
    if c.in_memory then none else elim (eightbytes c) [ [] ↦ none | k ∷ ks ↦ some (k ∷ ks) ]

abbrev pub registers_of :
    Classification → SysVArgCounts → ℕ → Option (List (SysVArgSlot × ℕ) × SysVArgCounts)
registers_of c u limit = elim (in_eightbytes c) [ none ↦ none | some ks ↦ hand_out ks u limit ]

abbrev fits : List Class → SysVArgCounts → ℕ → Bool
fits ks u limit =
    all_of (λ k. not (not (is_integer k) && not (is_sse k))) ks
    && (leb (u.integer_regs + count_of is_integer ks) limit
        && leb (u.sse_regs + count_of is_sse ks) 8)

hand_out-fits :
    (ks : List Class) (u : SysVArgCounts) (limit : ℕ)
    → u.integer_regs ≤ limit
    → u.sse_regs ≤ 8
    → hand_out ks u limit ≡ (if fits ks u limit then some (assign_eightbytes ks u) else none)
unfolding is_integer is_sse assign_eightbytes
hand_out-fits [] u limit a b = ground arith
hand_out-fits (integer ∷ ks) u limit a b =
    ground (arith, hand_out-fits ks (record u { integer_regs = u.integer_regs + 1 }) limit)
hand_out-fits (sse ∷ ks) u limit a b =
    ground (arith, hand_out-fits ks (record u { sse_regs = u.sse_regs + 1 }) limit)
hand_out-fits (sse_up ∷ ks) u limit a b =
    ground (arith, hand_out-fits ks (record u { sse_regs = u.sse_regs + 1 }) limit)
hand_out-fits (no_class ∷ ks) u limit a b = refl
hand_out-fits (x87 ∷ ks) u limit a b = refl
hand_out-fits (x87_up ∷ ks) u limit a b = refl
hand_out-fits (complex_x87 ∷ ks) u limit a b = refl
hand_out-fits (memory ∷ ks) u limit a b = refl

-- An argument gets what registers taken one at a time give: for each eightbyte in turn the next
-- register of its class. Where the class lies in memory, has no eightbytes or has one that is neither
-- INTEGER nor SSE, or where the registers of a kind run out part of the way, it goes to the stack and
-- the registers already taken are given back.
pub assign_sysv_arg-hand_out :
    (c : Classification) (u : SysVArgCounts) (limit : ℕ)
    → u.integer_regs ≤ limit
    → u.sse_regs ≤ 8
    → assign_sysv_arg c u limit ≡ taken_or_stack (registers_of c u limit) u
unfolding assign_sysv_arg in_registers integer_eightbytes sse_eightbytes eightbytes
assign_sysv_arg-hand_out c u limit a b = ground (arith, hand_out-fits (eightbytes c) u limit a b)
