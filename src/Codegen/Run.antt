-- ===== src/Codegen/Run.antt =====
-- What the blocks of src/codegen/Cfg.h mean: the runs of a graph. A run is told by its events: the
-- instructions executed in order and, at a conditional jump, whether it was taken.
pub mod JumpToNext
pub mod Threading
use trans.Prelude.{
  ℕ, ◌≡◌, refl, ap, subst, Bool, true, false, Option, none, some, List, [], ◌∷◌, if◌then◌else◌,
  Bool-cases, inl, inr, ◌⊎◌,
}
use trans.Codegen.Instruction.{
  Instruction, JumpCondition, transfers_control, is_unconditional, is_none,
}
use trans.Codegen.Cfg.{BasicBlock, Cfg, is_jump_op, same_id}

pub data Event : Type 0 where
  executed : Instruction → Event
  branched : JumpCondition → Bool → Event

-- The block that a jump to the label leads to, and those after it.
unfoldable pub from_label : Cfg → Option ℕ → Option (BasicBlock × Cfg)
from_label [] name = none
from_label (b ∷ bs) name = if same_id b.label name then some (b, bs) else from_label bs name

-- The beginnings of runs from a place in a block: its instructions that are left, and the blocks
-- after it. A run may be cut off anywhere, also between a conditional jump and its target.
pub data Run (cfg : Cfg) : List Instruction → Cfg → List Event → Type 0 where
  stop : {is : List Instruction} {rest : Cfg} → Run cfg is rest []
  fall :
      {b : BasicBlock} {rest : Cfg} {events : List Event}
      → Run cfg b.insts rest events
      → Run cfg [] (b ∷ rest) events
  execute :
      {i : Instruction} {is : List Instruction} {rest : Cfg} {events : List Event}
      → transfers_control i ≡ false
      → Run cfg is rest events
      → Run cfg (i ∷ is) rest (executed i ∷ events)
  leave :
      {i : Instruction} {is : List Instruction} {rest : Cfg}
      → transfers_control i ≡ true
      → is_jump_op i.op ≡ false
      → Run cfg (i ∷ is) rest (executed i ∷ [])
  go :
      {i : Instruction} {is : List Instruction} {rest after : Cfg} {b : BasicBlock}
      {events : List Event}
      → is_jump_op i.op ≡ true
      → is_unconditional i.cond ≡ true
      → from_label cfg i.arg0 ≡ some (b, after)
      → Run cfg b.insts after events
      → Run cfg (i ∷ is) rest events
  decide :
      {i : Instruction} {is : List Instruction} {rest : Cfg}
      → is_jump_op i.op ≡ true
      → is_unconditional i.cond ≡ false
      → Run cfg (i ∷ is) rest (branched i.cond true ∷ [])
  take :
      {i : Instruction} {is : List Instruction} {rest after : Cfg} {b : BasicBlock}
      {events : List Event}
      → is_jump_op i.op ≡ true
      → is_unconditional i.cond ≡ false
      → from_label cfg i.arg0 ≡ some (b, after)
      → Run cfg b.insts after events
      → Run cfg (i ∷ is) rest (branched i.cond true ∷ events)
  pass :
      {i : Instruction} {is : List Instruction} {rest : Cfg} {events : List Event}
      → is_jump_op i.op ≡ true
      → is_unconditional i.cond ≡ false
      → Run cfg is rest events
      → Run cfg (i ∷ is) rest (branched i.cond false ∷ events)

-- A run of a graph from its first block.
abbrev pub RunsFrom : Cfg → List Event → Type 0
RunsFrom cfg events = Run cfg [] cfg events

-- Each label of the blocks leads to its own block.
abbrev pub Anchored : Cfg → Cfg → Type 0
Anchored cfg [] = Unit
Anchored cfg (c ∷ rest) =
    (is_none c.label ≡ false → from_label cfg c.label ≡ some (c, rest)) × Anchored cfg rest

-- No two blocks of the graph have the same label.
abbrev pub LabelsDistinct : Cfg → Type 0
LabelsDistinct cfg = Anchored cfg cfg

abbrev pub Target : Type 0
Target = Option (BasicBlock × Cfg)

pub some_pair :
    {b c : BasicBlock} {r s : Cfg} (x y : Target)
    → x ≡ some (b, r)
    → y ≡ some (c, s)
    → x ≡ y
    → (b ≡ c) × (r ≡ s)
some_pair x y p q e = (cc, cc)

-- The blocks after a target are anchored where all are.
pub from_label-Anchored :
    (cfg blocks : Cfg) (name : Option ℕ) (b : BasicBlock) (after : Cfg)
    → Anchored cfg blocks
    → from_label blocks name ≡ some (b, after)
    → Anchored cfg after
unfolding from_label
from_label-Anchored cfg [] name b after a h = cc
from_label-Anchored cfg (c ∷ rest) name b after (here, a) h =
    elim (Bool-cases (same_id c.label name)) [
      | inl e ↦ subst (Anchored cfg) (some_pair _ _ refl (rw e at h) refl).1 a
      | inr e ↦ from_label-Anchored cfg rest name b after a (rw e at h)
    ]
