-- ===== src/Codegen/Run/Threading.antt =====
-- src/codegen/Cfg.cpp: the table of trampolines, and what threading does to a jump and to a label.
pub mod Keeps
pub mod Back
use trans.Prelude.{
  ℕ, ◌≡◌, refl, ap, sym, ◌∙◌, true, false, Bool, Option, none, some, List, [], ◌∷◌, ◌++◌, map,
  Bool-cases, inl, inr, ◌⊎◌, ◌==◌, ==_iff, ◌&&◌, arith,
}
use trans.Codegen.Instruction.{Instruction, transfers_control, is_unconditional, instruction_class}
use trans.Codegen.Cfg.{
  BasicBlock, Cfg, is_jump_op, lookup, jump_entry, block_entry, trampoline_of, trampolines,
  thread_id, thread_inst, thread_block,
}
use trans.Codegen.Cfg.Threading.{Leads, here, hop, final_target_lem}
use trans.Codegen.Run.{from_label, Anchored}

-- The block of a label holds one jump, to the other label.
pub record Trampoline (cfg : Cfg) (name next : ℕ) : Type 0 where
  pub block : BasicBlock
  pub after : Cfg
  pub inst : Instruction
  pub found : from_label cfg (some name) ≡ some (block, after)
  pub single : block.insts ≡ inst ∷ []
  pub jump : is_jump_op inst.op ≡ true
  pub unconditional : is_unconditional inst.cond ≡ true
  pub target : inst.arg0 ≡ some next

-- Every entry of a table is one of these.
abbrev pub AreTrampolines : Cfg → List (ℕ × ℕ) → Type 0
AreTrampolines cfg t = (name next : ℕ) → lookup t name ≡ some next → Trampoline cfg name next

block_entry_lem :
    (label : Option ℕ) (insts : List Instruction) (found : List (ℕ × ℕ)) (name next : ℕ)
    → lookup (block_entry label insts ++ found) name ≡ some next
    → (lookup found name ≡ some next)
      ⊎ ((label ≡ some name)
          × (i : Instruction) × (insts ≡ i ∷ [])
          × (is_jump_op i.op ≡ true)
          × (is_unconditional i.cond ≡ true)
          × (i.arg0 ≡ some next))
block_entry_lem none insts found name next h = inl h
block_entry_lem (some l) [] found name next h = inl h
block_entry_lem (some l) (i ∷ j ∷ js) found name next h = inl h
block_entry_lem (some l) (i ∷ []) found name next h = by_target i.arg0 refl h
  where
    by_target :
        (o : Option ℕ)
        → i.arg0 ≡ o
        → lookup (jump_entry l i o ++ found) name ≡ some next
        → (lookup found name ≡ some next)
          ⊎ ((some l ≡ some name)
              × (k : Instruction) × (i ∷ [] ≡ k ∷ [])
              × (is_jump_op k.op ≡ true)
              × (is_unconditional k.cond ≡ true)
              × (k.arg0 ≡ some next))
    by_target none e g = inl g
    by_target (some target) e g = elim (Bool-cases (is_jump_op i.op && is_unconditional i.cond)) [
      | inr neither ↦ inl (rw neither at g)
      | inl both ↦ elim (Bool-cases (l == name)) [
        | inr other ↦ inl (rw (both, other) at g)
        | inl same ↦ inr (
          ap some ((==_iff l name).0 same),
          i,
          refl,
          ground arith,
          ground arith,
          e ∙ (rw (both, same) at g),
        )
      ]
    ]

pub trampolines_lem :
    (cfg blocks : Cfg) (found : List (ℕ × ℕ))
    → Anchored cfg blocks
    → AreTrampolines cfg found
    → AreTrampolines cfg (trampolines blocks found)
unfolding trampolines
trampolines_lem cfg [] found a h = h
trampolines_lem cfg (b ∷ rest) found (first, a) h =
    trampolines_lem cfg rest (trampoline_of b ++ found) a (λ name next e.
      elim (block_entry_lem b.label b.insts found name next e) [
        | inl old ↦ h name next old
        | inr (label, i, single, jump, unconditional, target) ↦ record {
          block = b;
          after = rest;
          inst = i;
          found = ap (from_label cfg) (sym label) ∙ first (rw label refl);
          single = single;
          jump = jump;
          unconditional = unconditional;
          target = target;
        }
      ])

-- A chain of trampolines from a jump's label, if it has one.
pub data Chain (t : List (ℕ × ℕ)) : Option ℕ → Option ℕ → Type 0 where
  stay : {o : Option ℕ} → Chain t o o
  jumps :
      {name next : ℕ} {o : Option ℕ}
      → lookup t name ≡ some next
      → Chain t (some next) o
      → Chain t (some name) o

Leads-Chain : (t : List (ℕ × ℕ)) {a b : ℕ} → Leads t a b → Chain t (some a) (some b)
Leads-Chain t here = stay
Leads-Chain t (hop e l) = jumps e (Leads-Chain t l)

pub thread_id-Chain : (t : List (ℕ × ℕ)) (o : Option ℕ) → Chain t o (thread_id t o)
thread_id-Chain t none = stay
thread_id-Chain t (some name) =
    let (target, e, l, _) = final_target_lem t name in rw e (Leads-Chain t l)

pub thread_op : (t : List (ℕ × ℕ)) (i : Instruction) → (thread_inst t i).op ≡ i.op
thread_op t i = ground arith

pub thread_cond : (t : List (ℕ × ℕ)) (i : Instruction) → (thread_inst t i).cond ≡ i.cond
thread_cond t i = ground arith

pub thread_other :
    (t : List (ℕ × ℕ)) (i : Instruction) → is_jump_op i.op ≡ false → thread_inst t i ≡ i
thread_other t i h = rw h refl

pub thread_target :
    (t : List (ℕ × ℕ)) (i : Instruction)
    → is_jump_op i.op ≡ true
    → (thread_inst t i).arg0 ≡ thread_id t i.arg0
thread_target t i h = rw h refl

pub jump_transfers : (i : Instruction) → is_jump_op i.op ≡ true → transfers_control i ≡ true
unfolding transfers_control instruction_class
jump_transfers i h = ground arith

pub not_jump : (i : Instruction) → transfers_control i ≡ false → is_jump_op i.op ≡ false
unfolding transfers_control instruction_class
not_jump i h = ground arith

module _ (t : List (ℕ × ℕ)) where
  abbrev pub threaded_insts : List Instruction → List Instruction
  threaded_insts = map (thread_inst t)

  abbrev pub threaded : Cfg → Cfg
  threaded = map (thread_block t)

  abbrev pub image_of : Option (BasicBlock × Cfg) → Option (BasicBlock × Cfg)
  image_of none = none
  image_of (some (b, after)) = some (thread_block t b, threaded after)

  pub from_label-threaded :
      (cfg : Cfg) (name : Option ℕ)
      → from_label (threaded cfg) name ≡ image_of (from_label cfg name)
  unfolding from_label
  from_label-threaded [] name = refl
  from_label-threaded (b ∷ rest) name = ground (arith, from_label-threaded rest name)
