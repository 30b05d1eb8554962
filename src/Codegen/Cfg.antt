-- ===== src/Codegen/Cfg.antt =====
-- src/codegen/Cfg.h and Cfg.cpp: the blocks of a procedure body and the passes over them. A loop that
-- runs until nothing changes takes fuel, and gives `none` where it runs out.
pub mod RoundTrip
pub mod Visits
pub mod Search
pub mod Threading
pub mod Rounds
use trans.Prelude.{
  ℕ, zero, suc, ◌+◌, ◌<◌, Bool, true, false, not, Option, none, some, List, [], ◌∷◌, ◌++◌, ltb,
  ◌==◌, ◌&&◌, ◌||◌, if◌then◌else◌, length, get_elem?, get_or, set, map, replicate,
}
use trans.Codegen.Instruction.{
  Op, label, jump, JumpCondition, Instruction, label_instruction, transfers_control,
  is_unconditional, is_none,
}

pub record BasicBlock : Type 0 where
  pub label : Option ℕ
  pub insts : List Instruction

abbrev pub Cfg : Type 0
Cfg = List BasicBlock

abbrev pub is_label_op : Op → Bool
is_label_op label = true
is_label_op _ = false

abbrev pub is_jump_op : Op → Bool
is_jump_op jump = true
is_jump_op _ = false

abbrev pub no_items {ℓ} : {A : Type ℓ} → List A → Bool
no_items [] = true
no_items (x ∷ xs) = false

abbrev pub last {ℓ} : {A : Type ℓ} → List A → Option A
last [] = none
last (x ∷ []) = some x
last (x ∷ y ∷ ys) = last (y ∷ ys)

abbrev pub same_id : Option ℕ → Option ℕ → Bool
same_id none none = true
same_id (some a) (some b) = a == b
same_id _ _ = false

abbrev pub empty_block : BasicBlock
empty_block = record { label = none; insts = [] }

-- `flush`: what it appends to the blocks.
abbrev pub flush : BasicBlock → Cfg
flush current = if is_none current.label && no_items current.insts then [] else current ∷ []

abbrev pub push_inst : BasicBlock → Instruction → BasicBlock
push_inst b i = record b { insts = b.insts ++ i ∷ [] }

-- The loop over the body, with the block that is being filled.
unfoldable pub build_from : BasicBlock → List Instruction → Cfg
build_from current [] = flush current
build_from current (i ∷ rest) = elim (is_label_op i.op) [
  | true ↦ flush current ++ build_from (record { label = i.arg0; insts = [] }) rest
  | false ↦ elim (transfers_control i) [
    | true ↦ flush (push_inst current i) ++ build_from empty_block rest
    | false ↦ build_from (push_inst current i) rest
  ]
]

unfoldable pub build_cfg : List Instruction → Cfg
build_cfg body = build_from empty_block body

abbrev pub label_line : Option ℕ → List Instruction
label_line none = []
label_line (some name) = label_instruction name ∷ []

unfoldable pub flatten_cfg : Cfg → List Instruction
flatten_cfg [] = []
flatten_cfg (b ∷ bs) = label_line b.label ++ (b.insts ++ flatten_cfg bs)

-- The first block with the label, or the number of blocks.
unfoldable pub block_index_with_label : Cfg → Option ℕ → ℕ
block_index_with_label [] name = 0
block_index_with_label (b ∷ bs) name =
    let rest = block_index_with_label bs name in if same_id b.label name then 0 else suc rest

abbrev pub fallthrough : Cfg → ℕ → List ℕ
fallthrough cfg i = if ltb (suc i) (length cfg) then suc i ∷ [] else []

abbrev pub jump_target : Cfg → Instruction → List ℕ
jump_target cfg i =
    if ltb (block_index_with_label cfg i.arg0) (length cfg)
    then block_index_with_label cfg i.arg0 ∷ []
    else []

-- The successors of block `i`, given its last instruction.
unfoldable pub successors_of : Cfg → ℕ → Option Instruction → List ℕ
unfolding block_index_with_label
successors_of cfg i none = fallthrough cfg i
successors_of cfg i (some inst) =
    if not (transfers_control inst)
    then fallthrough cfg i
    else if is_jump_op inst.op
    then jump_target cfg inst ++ (if is_unconditional inst.cond then [] else fallthrough cfg i)
    else []

abbrev pub last_of : Option BasicBlock → Option Instruction
last_of none = none
last_of (some b) = last b.insts

-- The block is one of the graph's.
unfoldable pub cfg_successors : Cfg → ℕ → List ℕ
unfolding successors_of
cfg_successors cfg i = successors_of cfg i (last_of (get_elem? cfg i))

abbrev pub jump_entry : ℕ → Instruction → Option ℕ → List (ℕ × ℕ)
jump_entry name inst none = []
jump_entry name inst (some target) =
    if is_jump_op inst.op && is_unconditional inst.cond then (name, target) ∷ [] else []

-- A block that holds one unconditional jump to a name gives its label that target.
abbrev pub block_entry : Option ℕ → List Instruction → List (ℕ × ℕ)
block_entry (some name) (inst ∷ []) = jump_entry name inst inst.arg0
block_entry _ _ = []

unfoldable pub trampoline_of : BasicBlock → List (ℕ × ℕ)
trampoline_of b = block_entry b.label b.insts

-- The loop over the blocks: a later entry hides an earlier one of the same label.
unfoldable pub trampolines : Cfg → List (ℕ × ℕ) → List (ℕ × ℕ)
unfolding trampoline_of
trampolines [] found = found
trampolines (b ∷ bs) found = trampolines bs (trampoline_of b ++ found)

abbrev pub lookup : List (ℕ × ℕ) → ℕ → Option ℕ
lookup [] name = none
lookup ((key, value) ∷ rest) name = if key == name then some value else lookup rest name

abbrev pub contains : List ℕ → ℕ → Bool
contains [] n = false
contains (m ∷ ms) n = (m == n) || contains ms n

-- The loop of `finalTarget`.
unfoldable pub follow : List (ℕ × ℕ) → ℕ → List ℕ → ℕ → ℕ → Option ℕ
follow trampoline zero seen name target = none
follow trampoline (suc fuel) seen name target = elim (lookup trampoline target) [
  | none ↦ some target
  | some next ↦ elim (contains seen target) [
    | true ↦ some name
    | false ↦ follow trampoline fuel (target ∷ seen) name next
  ]
]

unfoldable pub final_target : List (ℕ × ℕ) → ℕ → Option ℕ
final_target trampoline name = follow trampoline (suc (length trampoline)) [] name name

abbrev pub or_else : Option ℕ → ℕ → ℕ
or_else none n = n
or_else (some m) n = m

abbrev pub thread_id : List (ℕ × ℕ) → Option ℕ → Option ℕ
thread_id trampoline none = none
thread_id trampoline (some name) = some (or_else (final_target trampoline name) name)

abbrev pub thread_inst : List (ℕ × ℕ) → Instruction → Instruction
thread_inst trampoline i =
    if is_jump_op i.op then record i { arg0 = thread_id trampoline i.arg0 } else i

abbrev pub thread_block : List (ℕ × ℕ) → BasicBlock → BasicBlock
thread_block trampoline b = record b { insts = map (thread_inst trampoline) b.insts }

unfoldable pub thread_jumps : Cfg → Cfg
thread_jumps cfg =
    let trampoline = trampolines cfg [] in
    if no_items trampoline then cfg else map (thread_block trampoline) cfg

-- The flags `reachable` and the stack `work`, its top first.
pub record Work : Type 0 where
  pub reachable : List Bool
  pub work : List ℕ

abbrev pub mark : Work → ℕ → Work
mark w s =
    if get_or w.reachable s false
    then w
    else record { reachable = set w.reachable s true; work = s ∷ w.work }

unfoldable pub visit : Work → List ℕ → Work
visit w [] = w
visit w (s ∷ ss) = visit (mark w s) ss

unfoldable pub search : Cfg → ℕ → Work → Option (List Bool)
search cfg zero w = none
search cfg (suc fuel) w = elim w.work [
  | [] ↦ some w.reachable
  | i ∷ rest ↦ search cfg fuel (visit (record w { work = rest }) (cfg_successors cfg i))
]

abbrev pub keep : List Bool → Cfg → Cfg
keep (true ∷ flags) (b ∷ bs) = b ∷ keep flags bs
keep (false ∷ flags) (b ∷ bs) = keep flags bs
keep _ _ = []

abbrev pub entry_work : Cfg → Work
entry_work cfg = record { reachable = set (replicate (length cfg) false) 0 true; work = 0 ∷ [] }

unfoldable pub eliminate_unreachable : Cfg → Option Cfg
eliminate_unreachable [] = some []
eliminate_unreachable (b ∷ bs) =
    let cfg = b ∷ bs in
    elim (search cfg (suc (length cfg)) (entry_work cfg)) [
      | none ↦ none
      | some flags ↦ some (keep flags cfg)
    ]

abbrev pub drop_last {ℓ} : {A : Type ℓ} → List A → List A
drop_last [] = []
drop_last (x ∷ []) = []
drop_last (x ∷ y ∷ ys) = x ∷ drop_last (y ∷ ys)

-- The test of the loop: the last instruction is a jump to the label of the next block.
abbrev pub jumps_to : Option Instruction → Option ℕ → Bool
jumps_to none name = false
jumps_to (some i) name =
    not (is_none name) && (is_jump_op i.op && (is_unconditional i.cond && same_id i.arg0 name))

abbrev pub without_last : BasicBlock → BasicBlock
without_last b = record b { insts = drop_last b.insts }

-- One round of the loop, and whether it changed a block.
unfoldable pub eliminate_round : Cfg → Cfg × Bool
eliminate_round [] = ([], false)
eliminate_round (b ∷ []) = (b ∷ [], false)
eliminate_round (b ∷ c ∷ rest) =
    let others = eliminate_round (c ∷ rest) in
    if jumps_to (last b.insts) c.label
    then (without_last b ∷ others.0, true)
    else (b ∷ others.0, others.1)

unfoldable pub eliminate_rounds : ℕ → Cfg → Option Cfg
eliminate_rounds zero cfg = none
eliminate_rounds (suc fuel) cfg = elim (eliminate_round cfg).1 [
  | true ↦ eliminate_rounds fuel (eliminate_round cfg).0
  | false ↦ some (eliminate_round cfg).0
]

abbrev pub instruction_count : Cfg → ℕ
instruction_count [] = 0
instruction_count (b ∷ bs) = length b.insts + instruction_count bs

unfoldable pub eliminate_jump_to_next : Cfg → Option Cfg
eliminate_jump_to_next cfg = eliminate_rounds (suc (instruction_count cfg)) cfg

abbrev pub transfers_always : Option Instruction → Bool
transfers_always none = false
transfers_always (some i) =
    transfers_control i && (not (is_jump_op i.op) || is_unconditional i.cond)

unfoldable pub ends_with_unconditional_terminator : BasicBlock → Bool
ends_with_unconditional_terminator b = transfers_always (last b.insts)

-- False where the compiler ends with an internal error.
unfoldable pub validate_cfg : Cfg → Bool
validate_cfg [] = true
validate_cfg (b ∷ []) = true
validate_cfg (b ∷ c ∷ rest) =
    not (ends_with_unconditional_terminator b && is_none c.label) && validate_cfg (c ∷ rest)

unfoldable pub validate_procedure_body : List Instruction → Bool
validate_procedure_body body = validate_cfg (build_cfg body)
