-- ===== src/Codegen/SymbolRefs/Fit.antt =====
-- src/codegen/SymbolRefs.h: the lists of ids are long enough.
use trans.Prelude.{◌≤◌, arith, length}
use trans.Codegen.Instruction.{Instruction}
use trans.Codegen.SymbolRefs.{collect_symbol_refs}

-- No instruction uses more than two values or defines more than one, so that no list of ids
-- overflows.
pub collect_symbol_refs_fit :
    (i : Instruction)
    → (length (collect_symbol_refs i).uses ≤ 2) × (length (collect_symbol_refs i).defs ≤ 1)
unfolding collect_symbol_refs
collect_symbol_refs_fit i = ground arith
