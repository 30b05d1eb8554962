-- ===== src/Codegen/Liveness/Answers.antt =====
-- src/codegen/Liveness.cpp: what the passes read from the solution. A set of values is a list.
use mathlib.Core.Option
use trans.Prelude.{
  ℕ, suc, ◌+◌, Bool, true, false, Option, none, some, List, [], ◌∷◌, ◌++◌, if◌then◌else◌, length,
  set, replicate, map,
}
use trans.Codegen.Instruction.{Instruction}
use trans.Codegen.SymbolRefs.{SymbolRefs, collect_symbol_refs}
use trans.Codegen.Cfg.{Cfg}
use trans.Codegen.Liveness.Sets.{Bits, set_bit, clear_bit, test_bit}
use trans.Codegen.Liveness.{LiveBits}
use trans.Codegen.Liveness.Sized.{bits_at}
use trans.Codegen.Liveness.Procedure.{LinearPrep, Solved, dense_id, call_uses, first_index, solve}

-- The values whose bits are set, the lowest first.
pub to_set : Bits → List ℕ → List ℕ
to_set (b ∷ bits) (id ∷ ids) = if b then id ∷ to_set bits ids else to_set bits ids
to_set _ _ = []

-- What is live after an instruction of the body.
pub record Visit : Type 0 where
  pub inst : Instruction
  pub index : ℕ
  pub refs : SymbolRefs
  pub later : Bits

abbrev pub clear_all : Bits → List (Option ℕ) → Bits
clear_all later [] = later
clear_all later (d ∷ rest) = clear_all (clear_bit later d) rest

abbrev pub set_all : Bits → List (Option ℕ) → Bits
set_all later [] = later
set_all later (d ∷ rest) = set_all (set_bit later d) rest

-- What is live before an instruction, from what is live after it.
unfoldable pub live_before : LinearPrep → Instruction → ℕ → Bits → Bits
live_before prep inst index later =
    let refs = collect_symbol_refs inst in
    set_all
      (set_all (clear_all later (map (dense_id prep) refs.defs)) (map (dense_id prep) refs.uses))
      (call_uses prep refs index)

-- The instructions of a block from the last one back: the visits, and what is live before the first.
unfoldable pub walk_block : LinearPrep → ℕ → List Instruction → Bits → List Visit × Bits
walk_block prep index [] later = ([], later)
walk_block prep index (inst ∷ rest) later =
    let (visits, after) = walk_block prep (suc index) rest later in
    (
      visits
          ++ record { inst = inst; index = index; refs = collect_symbol_refs inst; later = after }
            ∷ [],
      live_before prep inst index after,
    )

pub walk_from : LinearPrep → LiveBits → ℕ → ℕ → Cfg → List Visit
walk_from prep live b index [] = []
walk_from prep live b index (block ∷ rest) =
    let start = first_index block.label index in
    (walk_block prep start block.insts (bits_at live.live_out b)).0
    ++ walk_from prep live (suc b) (start + length block.insts) rest

pub walk_backward : Solved → List Visit
walk_backward solved = walk_from solved.prep solved.live 0 0 solved.cfg

-- Tables from labels and from places of the body.
pub record ProcedureLiveness : Type 0 where
  pub at_label : List (ℕ × List ℕ)
  pub after_call : List (ℕ × List ℕ)
  pub address_taken : List ℕ

pub at_labels : Solved → ℕ → Cfg → List (ℕ × List ℕ)
at_labels solved b [] = []
at_labels solved b (block ∷ rest) = elim block.label [
  | none ↦ at_labels solved (suc b) rest
  | some name ↦
      (name, to_set (bits_at solved.live.live_in b) solved.prep.ids ++ solved.prep.address_taken)
      ∷ at_labels solved (suc b) rest
]

pub after_calls : List ℕ → List Visit → List (ℕ × List ℕ)
after_calls ids [] = []
after_calls ids (v ∷ rest) =
    if v.refs.is_call
    then (v.index, to_set v.later ids) ∷ after_calls ids rest
    else after_calls ids rest

pub procedure_liveness : Solved → ProcedureLiveness
procedure_liveness solved = record {
  at_label = at_labels solved 0 solved.cfg;
  after_call = after_calls solved.prep.ids (walk_backward solved);
  address_taken = solved.prep.address_taken;
}

pub compute_procedure_liveness : ℕ → List Instruction → Option ProcedureLiveness
compute_procedure_liveness fuel body = Option.map procedure_liveness (solve fuel body)

pub record TempLiveness : Type 0 where
  pub result_live_after : List Bool
  pub address_taken : List ℕ

abbrev result_number : LinearPrep → Option ℕ → Option ℕ
result_number prep none = none
result_number prep (some id) = dense_id prep id

pub mark_results : LinearPrep → List Bool → List Visit → List Bool
mark_results prep flags [] = flags
mark_results prep flags (v ∷ rest) =
    mark_results prep
      (if test_bit v.later (result_number prep v.inst.result)
        then set flags v.index true
        else flags)
      rest

pub temp_liveness : ℕ → Solved → TempLiveness
temp_liveness size solved = record {
  result_live_after = mark_results solved.prep (replicate size false) (walk_backward solved);
  address_taken = solved.prep.address_taken;
}

pub compute_temp_liveness : ℕ → List Instruction → Option TempLiveness
compute_temp_liveness fuel body = Option.map (temp_liveness (length body)) (solve fuel body)
