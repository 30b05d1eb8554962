-- ===== src/Codegen/Tests.antt =====
-- The theorems about src/codegen at a body with a trampoline and a jump to the next block.
use trans.Prelude.{ℕ, ◌≡◌, refl, Bool, true, none, some, List, [], ◌∷◌, All, arith, ◌⊎◌, ◌↔◌}
use trans.Codegen.Instruction.{
  Op, Instruction, plain, label_instruction, validate_instruction, JumpCondition, op_contract,
  transfers_control, instruction_class,
}
use trans.Codegen.Cfg.{
  Cfg, build_cfg, build_from, flatten_cfg, eliminate_jump_to_next, eliminate_rounds,
  eliminate_round, thread_jumps, eliminate_unreachable, keep, final_target, lookup,
}
use trans.Codegen.Cfg.RoundTrip.{IsNamed, IsBasic, flatten-build, build-IsBasic}
use trans.Codegen.Cfg.Rounds.{NoJumpToNext, eliminate_jump_to_next_lem}
use trans.Codegen.Cfg.Search.{Found, eliminate_unreachable_lem}
use trans.Codegen.Cfg.Threading.{Leads, LeadsToCycle, final_target_lem}
use trans.Codegen.Run.{Event, executed, branched, RunsFrom, LabelsDistinct, from_label}
use trans.Codegen.Run.JumpToNext.{eliminate_jump_to_next_runs}
use trans.Codegen.Run.Threading.Back.{thread_jumps_runs}

abbrev test : Instruction
test = record (plain Op.zero_compare) { arg0 = some 7 }

abbrev branch : Instruction
branch = record (plain Op.jump) { arg0 = some 1; cond = JumpCondition.if_equal }

abbrev skip : Instruction
skip = record (plain Op.jump) { arg0 = some 3 }

abbrev finish : Instruction
finish = plain Op.void_return

-- if (x == 0) goto 1; 2: 1: goto 3; 3: return;
abbrev body : List Instruction
body =
    test
    ∷ branch
    ∷ label_instruction 2
    ∷ label_instruction 1
    ∷ skip
    ∷ label_instruction 3
    ∷ finish
    ∷ []

abbrev blocks : Cfg
blocks =
    record { label = none; insts = test ∷ branch ∷ [] }
    ∷ record { label = some 2; insts = [] }
    ∷ record { label = some 1; insts = skip ∷ [] }
    ∷ record { label = some 3; insts = finish ∷ [] }
    ∷ []

abbrev shorter : Cfg
shorter =
    record { label = none; insts = test ∷ branch ∷ [] }
    ∷ record { label = some 2; insts = [] }
    ∷ record { label = some 1; insts = [] }
    ∷ record { label = some 3; insts = finish ∷ [] }
    ∷ []

built : build_cfg body ≡ blocks
unfolding build_cfg build_from transfers_control instruction_class op_contract
built = refl

body-IsNamed : All IsNamed body
unfolding validate_instruction op_contract
body-IsNamed = (
  record { valid = refl; named = λ e. cc },
  (
    record { valid = refl; named = λ e. cc },
    (
      record { valid = refl; named = λ e. (2, refl) },
      (
        record { valid = refl; named = λ e. (1, refl) },
        (
          record { valid = refl; named = λ e. cc },
          (
            record { valid = refl; named = λ e. (3, refl) },
            (record { valid = refl; named = λ e. cc }, tt),
          ),
        ),
      ),
    ),
  ),
)

flatten-build_example : flatten_cfg (build_cfg body) ≡ body
flatten-build_example = flatten-build body body-IsNamed

build-IsBasic_example : All IsBasic (build_cfg body)
build-IsBasic_example = build-IsBasic body

blocks_distinct : LabelsDistinct blocks
unfolding from_label
blocks_distinct = (λ e. cc, (λ e. refl, (λ e. refl, (λ e. refl, tt))))

rounds : eliminate_jump_to_next blocks ≡ some shorter
unfolding eliminate_jump_to_next eliminate_rounds eliminate_round
rounds = refl

eliminate_jump_to_next_lem_example :
    (out : Cfg) × (eliminate_jump_to_next blocks ≡ some out) × NoJumpToNext out
eliminate_jump_to_next_lem_example = eliminate_jump_to_next_lem blocks

abbrev taken_run : List Event
taken_run = executed test ∷ branched JumpCondition.if_equal true ∷ executed finish ∷ []

eliminate_jump_to_next_runs_example : RunsFrom blocks taken_run ↔ RunsFrom shorter taken_run
eliminate_jump_to_next_runs_example =
    eliminate_jump_to_next_runs blocks shorter rounds blocks_distinct taken_run

thread_jumps_runs_example : RunsFrom blocks taken_run ↔ RunsFrom (thread_jumps blocks) taken_run
thread_jumps_runs_example = thread_jumps_runs blocks blocks_distinct taken_run

eliminate_unreachable_lem_example :
    (flags : List Bool) × (eliminate_unreachable blocks ≡ some (keep flags blocks))
    × Found blocks flags
eliminate_unreachable_lem_example = eliminate_unreachable_lem blocks (omega arith)

abbrev cycle : List (ℕ × ℕ)
cycle = (1, 2) ∷ (2, 1) ∷ (4, 1) ∷ []

final_target_lem_example :
    (last : ℕ) × (final_target cycle 4 ≡ some last)
    × Leads cycle 4 last
    × ((lookup cycle last ≡ none) ⊎ ((last ≡ 4) × LeadsToCycle cycle 4))
final_target_lem_example = final_target_lem cycle 4
