-- ===== src/Codegen/Cfg/Rounds.antt =====
-- src/codegen/Cfg.cpp: the rounds of `eliminateJumpToNext` end, and leave no unconditional jump to the
-- next block.
use trans.Prelude.{
  ℕ, zero, suc, ◌≤◌, ◌<◌, ◌≡◌, refl, true, false, Option, some, List, [], ◌∷◌, ◌++◌, length, arith,
  ◌==◌, ==_iff, Bool-cases, inl, inr,
}
use trans.Codegen.Instruction.{Instruction, Op, JumpCondition}
use trans.Codegen.Cfg.{
  Cfg, BasicBlock, last, jumps_to, drop_last, eliminate_round, eliminate_rounds, instruction_count,
  eliminate_jump_to_next,
}

-- The first block ends with an unconditional jump to the label of the second.
pub record JumpsToNext (b c : BasicBlock) : Type 0 where
  pub front : List Instruction
  pub end : Instruction
  pub name : ℕ
  pub ends : b.insts ≡ front ++ end ∷ []
  pub labelled : c.label ≡ some name
  pub jumps : end.op ≡ Op.jump
  pub always : end.cond ≡ JumpCondition.unconditional
  pub to : end.arg0 ≡ some name

abbrev pub NoJumpToNext : Cfg → Type 0
NoJumpToNext [] = Unit
NoJumpToNext (b ∷ []) = Unit
NoJumpToNext (b ∷ c ∷ rest) = (¬ JumpsToNext b c) × NoJumpToNext (c ∷ rest)

length-drop_last {ℓ} :
    {A : Type ℓ} (xs : List A) (x : A) → last xs ≡ some x → length xs ≡ suc (length (drop_last xs))
length-drop_last [] x h = cc
length-drop_last (y ∷ []) x h = refl
length-drop_last (y ∷ z ∷ zs) x h = omega (arith, length-drop_last (z ∷ zs) x h)

jump_dropped :
    (insts : List Instruction) (name : Option ℕ)
    → jumps_to (last insts) name ≡ true
    → length insts ≡ suc (length (drop_last insts))
jump_dropped [] name h = cc
jump_dropped (i ∷ []) name h = refl
jump_dropped (i ∷ j ∷ js) name h = omega (arith, jump_dropped (j ∷ js) name h)

last-append {ℓ} : {A : Type ℓ} (xs : List A) (x : A) → last (xs ++ x ∷ []) ≡ some x
last-append [] x = refl
last-append (y ∷ []) x = refl
last-append (y ∷ z ∷ zs) x = last-append (z ∷ zs) x

not_next : (b c : BasicBlock) → jumps_to (last b.insts) c.label ≡ false → ¬ JumpsToNext b c
not_next b c h j =
    let here : (j.name == j.name) ≡ true = (==_iff j.name j.name).1 refl in
    let bad =
      rw (j.ends, last-append j.front j.end, j.labelled, j.jumps, j.always, j.to, here) at h in
    cc

-- A round that changes a block leaves fewer instructions, and one that does not changes nothing.
round_count :
    (cfg : Cfg)
    → (instruction_count (eliminate_round cfg).0 ≤ instruction_count cfg)
      × ((eliminate_round cfg).1 ≡ true
          → instruction_count (eliminate_round cfg).0 < instruction_count cfg)
unfolding eliminate_round
round_count [] = ground arith
round_count (b ∷ []) = ground arith
round_count (b ∷ c ∷ rest) = elim (Bool-cases (jumps_to (last b.insts) c.label)) [
  | inl e ↦ rw e (ground (arith, jump_dropped b.insts c.label e, round_count (c ∷ rest)))
  | inr e ↦ rw e (ground (arith, round_count (c ∷ rest)))
]

round_same :
    (cfg : Cfg)
    → (eliminate_round cfg).1 ≡ false
    → ((eliminate_round cfg).0 ≡ cfg) × NoJumpToNext cfg
unfolding eliminate_round
round_same [] h = (refl, tt)
round_same (b ∷ []) h = (refl, tt)
round_same (b ∷ c ∷ rest) h = elim (Bool-cases (jumps_to (last b.insts) c.label)) [
  | inl e ↦ let bad = rw e at h in cc
  | inr e ↦
      let (same, none_left) = round_same (c ∷ rest) (rw e at h) in
      rw e (rw same refl, (not_next b c e, none_left))
]

rounds_end :
    (fuel : ℕ) (cfg : Cfg)
    → instruction_count cfg < fuel
    → (out : Cfg) × (eliminate_rounds fuel cfg ≡ some out) × NoJumpToNext out
unfolding eliminate_rounds
rounds_end zero cfg h = ground arith
rounds_end (suc fuel) cfg h = elim (Bool-cases (eliminate_round cfg).1) [
  | inl e ↦
      rw (e, eliminate_rounds)
        (rounds_end fuel (eliminate_round cfg).0 (omega (arith, (round_count cfg).1 e)))
  | inr e ↦
      let (same, none_left) = round_same cfg e in
      rw (e, eliminate_rounds, same) (cfg, refl, none_left)
]

-- The rounds end, and then no block ends with an unconditional jump to the label of the block after
-- it.
pub eliminate_jump_to_next_lem :
    (cfg : Cfg) → (out : Cfg) × (eliminate_jump_to_next cfg ≡ some out) × NoJumpToNext out
unfolding eliminate_jump_to_next
eliminate_jump_to_next_lem cfg = rounds_end (suc (instruction_count cfg)) cfg (omega arith)
