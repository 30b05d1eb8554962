-- ===== src/Codegen/LivenessTests.antt =====
-- The theorem about src/codegen/Liveness.cpp at a loop that uses a value after a jump back.
use trans.Prelude.{ℕ, ◌<◌, ◌≡◌, ◌↔◌, refl, true, some, List, [], ◌∷◌, length, arith}
use trans.Codegen.Instruction.{
  Op, Instruction, plain, label_instruction, JumpCondition, transfers_control, instruction_class,
}
use trans.Codegen.SymbolRefs.{collect_symbol_refs}
use trans.Codegen.Cfg.{build_cfg, build_from}
use trans.Codegen.Liveness.Sets.{has_bit, empty_bits}
use trans.Codegen.Liveness.Sized.{bits_at}
use trans.Codegen.Liveness.Paths.{Needed}
use trans.Codegen.Liveness.Whole.{capacity}
use trans.Codegen.Liveness.Procedure.{
  Solved, solve, prepare, prepare_from, body_sets, solve_lem, gen_kill_insts, fresh_sets,
}
use trans.Codegen.Liveness.{new_in}
use trans.Codegen.Liveness.Answers.{walk_block}
use trans.Codegen.Liveness.Walk.{walk_block_lem}

-- 1: x7 == 0; if it is, goto 1; return x8;
abbrev loop : List Instruction
loop =
    label_instruction 1
    ∷ record (plain Op.zero_compare) { arg0 = some 7 }
    ∷ record (plain Op.jump) { arg0 = some 1; cond = JumpCondition.if_equal }
    ∷ record (plain Op.return) { arg0 = some 8 }
    ∷ []

loop_fits : capacity (build_cfg loop) (length (prepare loop).ids) < 300
unfolding build_cfg build_from transfers_control instruction_class prepare prepare_from
    collect_symbol_refs
loop_fits = omega arith

solve_lem_example :
    (solved : Solved) × (solve 300 loop ≡ some solved)
    × ((i d : ℕ)
        → i < length (build_cfg loop)
        → (has_bit (bits_at solved.live.live_in i) d ≡ true)
          ↔ Needed (build_cfg loop) (body_sets loop) d i)
solve_lem_example = solve_lem loop 300 loop_fits

walk_block_lem_example :
    has_bit (new_in (gen_kill_insts (prepare loop) (fresh_sets 2) 0 loop) (empty_bits 2)) 1
    ≡ has_bit (walk_block (prepare loop) 0 loop (empty_bits 2)).1 1
walk_block_lem_example = walk_block_lem (prepare loop) 2 0 loop (empty_bits 2) 1 refl (omega arith)
