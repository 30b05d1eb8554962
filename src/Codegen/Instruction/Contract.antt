-- ===== src/Codegen/Instruction/Contract.antt =====
-- src/codegen/Instruction.cpp: what a validated instruction looks like.
use trans.Prelude.{ℕ, ◌≡◌, true, some, arith}
use trans.Codegen.Instruction.{label, Instruction, label_instruction, validate_instruction}

-- A validated label is the one that `ir::label` builds from its name.
pub validated_label :
    (i : Instruction) (name : ℕ)
    → i.op ≡ label
    → i.arg0 ≡ some name
    → validate_instruction i ≡ true
    → i ≡ label_instruction name
unfolding validate_instruction
validated_label i name o a v = ground arith
