-- ===== src/Codegen/Run/JumpToNext.antt =====
-- src/codegen/Cfg.cpp: dropping a jump to the next block keeps the runs.
use trans.Prelude.{
  ℕ, zero, suc, ◌≡◌, refl, ap, sym, subst, ◌∙◌, true, false, Option, none, some, List, [], ◌∷◌,
  Bool-cases, Option-cases, inl, inr, ◌↔◌, if◌then◌else◌, arith,
}
use trans.Codegen.Instruction.{
  Instruction, transfers_control, is_unconditional, is_none, instruction_class,
}
use trans.Codegen.Cfg.{
  BasicBlock, Cfg, last, is_jump_op, same_id, jumps_to, drop_last, without_last, eliminate_round,
  eliminate_rounds, eliminate_jump_to_next,
}
use trans.Codegen.Run.{
  Event, Run, stop, fall, execute, leave, go, decide, take, pass, RunsFrom, from_label, Anchored,
  LabelsDistinct, from_label-Anchored, some_pair,
}

-- A round on a block, given the blocks after it.
abbrev round_block : BasicBlock → Cfg → BasicBlock
round_block b [] = b
round_block b (c ∷ rest) = if jumps_to (last b.insts) c.label then without_last b else b

abbrev rounded : Cfg → Cfg
rounded [] = []
rounded (b ∷ rest) = round_block b rest ∷ rounded rest

rounded_lem : (cfg : Cfg) → (eliminate_round cfg).0 ≡ rounded cfg
unfolding eliminate_round
rounded_lem [] = refl
rounded_lem (b ∷ []) = refl
rounded_lem (b ∷ c ∷ rest) = elim (Bool-cases (jumps_to (last b.insts) c.label)) [
  | inl e ↦ rw (e, rounded_lem (c ∷ rest)) refl
  | inr e ↦ rw (e, rounded_lem (c ∷ rest)) refl
]

-- The instructions left in a block and in its image: the same but for the jump dropped.
data Image : List Instruction → Cfg → List Instruction → Type 0 where
  same : {is : List Instruction} {rest : Cfg} → Image is rest is
  ends :
      {j : Instruction} {c : BasicBlock} {rest : Cfg}
      → jumps_to (some j) c.label ≡ true
      → Image (j ∷ []) (c ∷ rest) []
  more :
      {i : Instruction} {is is' : List Instruction} {rest : Cfg}
      → Image is rest is'
      → Image (i ∷ is) rest (i ∷ is')

dropped-Image :
    (is : List Instruction) (c : BasicBlock) (rest : Cfg)
    → jumps_to (last is) c.label ≡ true
    → Image is (c ∷ rest) (drop_last is)
dropped-Image [] c rest h = cc
dropped-Image (j ∷ []) c rest h = ends h
dropped-Image (i ∷ j ∷ js) c rest h = more (dropped-Image (j ∷ js) c rest h)

enter : (b : BasicBlock) (rest : Cfg) → Image b.insts rest (round_block b rest).insts
enter b [] = same
enter b (c ∷ rest) = elim (Bool-cases (jumps_to (last b.insts) c.label)) [
  | inl e ↦ rw e (dropped-Image b.insts c rest e)
  | inr e ↦ rw e same
]

same_label : (b : BasicBlock) (rest : Cfg) → (round_block b rest).label ≡ b.label
same_label b [] = refl
same_label b (c ∷ rest) = ground arith

abbrev image_of : Option (BasicBlock × Cfg) → Option (BasicBlock × Cfg)
image_of none = none
image_of (some (b, after)) = some (round_block b after, rounded after)

from_label-rounded :
    (cfg : Cfg) (name : Option ℕ) → from_label (rounded cfg) name ≡ image_of (from_label cfg name)
unfolding from_label
from_label-rounded [] name = refl
from_label-rounded (b ∷ rest) name = elim (Bool-cases (same_id b.label name)) [
  | inl e ↦ rw (same_label b rest, e) refl
  | inr e ↦ rw (same_label b rest, e) (from_label-rounded rest name)
]

jump_transfers :
    (j : Instruction) (name : Option ℕ) → jumps_to (some j) name ≡ true → transfers_control j ≡ true
unfolding transfers_control instruction_class
jump_transfers j name h = ground arith

-- What a dropped jump was.
record Dropped (j : Instruction) (name : Option ℕ) : Type 0 where
  jump : is_jump_op j.op ≡ true
  unconditional : is_unconditional j.cond ≡ true
  named : is_none name ≡ false
  target : j.arg0 ≡ name

same_id_lem : (a b : Option ℕ) → same_id a b ≡ true → a ≡ b
same_id_lem a b h = ground arith

dropped : (j : Instruction) (name : Option ℕ) → jumps_to (some j) name ≡ true → Dropped j name
dropped j name h = record {
  jump = ground arith;
  unconditional = ground arith;
  named = ground arith;
  target = same_id_lem j.arg0 name (ground arith);
}

module _ (cfg : Cfg) (distinct : LabelsDistinct cfg) where
  image_target :
      (name : Option ℕ) (b : BasicBlock) (after : Cfg)
      → from_label cfg name ≡ some (b, after)
      → from_label (rounded cfg) name ≡ some (round_block b after, rounded after)
  image_target name b after e = rw (from_label-rounded cfg name, e) refl

  forward :
      {is is' : List Instruction} {rest : Cfg} {events : List Event}
      → Run cfg is rest events
      → Image is rest is'
      → Anchored cfg rest
      → Run (rounded cfg) is' (rounded rest) events
  forward stop s a = stop
  forward (fall {b} {rest} r) same a = fall (forward r (enter b rest) a.1)
  forward (execute p r) same a = execute p (forward r same a)
  forward (execute p r) (more s) a = execute p (forward r s a)
  forward (execute {i} p r) (ends {c = c} h) a = let q = jump_transfers i c.label h in cc
  forward (leave p q) same a = leave p q
  forward (leave p q) (more s) a = leave p q
  forward (leave {i} p q) (ends {c = c} h) a = let d = dropped i c.label h in let e = d.jump in cc
  forward (go {i} {after = after} {b = b} p q e r) same a =
      go p q (image_target i.arg0 b after e)
        (forward r (enter b after) (from_label-Anchored cfg cfg i.arg0 b after distinct e))
  forward (go {i} {after = after} {b = b} p q e r) (more s) a =
      go p q (image_target i.arg0 b after e)
        (forward r (enter b after) (from_label-Anchored cfg cfg i.arg0 b after distinct e))
  forward (go {i} {after = after} {b = b} p q e r) (ends {c = c} {rest = rest} h) a =
      let d = dropped i c.label h in
      let here = a.0 d.named in
      let (eb, er) = some_pair _ _ e here (ap (from_label cfg) d.target) in
      let run = forward r (enter b after) (from_label-Anchored cfg cfg i.arg0 b after distinct e) in
      fall (rw (eb, er) at run)
  forward (decide p q) same a = decide p q
  forward (decide p q) (more s) a = decide p q
  forward (decide {i} p q) (ends {c = c} h) a =
      let d = dropped i c.label h in let u = d.unconditional in cc
  forward (take {i} {after = after} {b = b} p q e r) same a =
      take p q (image_target i.arg0 b after e)
        (forward r (enter b after) (from_label-Anchored cfg cfg i.arg0 b after distinct e))
  forward (take {i} {after = after} {b = b} p q e r) (more s) a =
      take p q (image_target i.arg0 b after e)
        (forward r (enter b after) (from_label-Anchored cfg cfg i.arg0 b after distinct e))
  forward (take {i} p q e r) (ends {c = c} h) a =
      let d = dropped i c.label h in let u = d.unconditional in cc
  forward (pass p q r) same a = pass p q (forward r same a)
  forward (pass p q r) (more s) a = pass p q (forward r s a)
  forward (pass {i} p q r) (ends {c = c} h) a =
      let d = dropped i c.label h in let u = d.unconditional in cc

  source_target :
      (name : Option ℕ) (b' : BasicBlock) (after' : Cfg)
      → from_label (rounded cfg) name ≡ some (b', after')
      → (b : BasicBlock) × (after : Cfg) × (from_label cfg name ≡ some (b, after))
        × Anchored cfg after
        × (after' ≡ rounded after)
        × Image b.insts after b'.insts
  source_target name b' after' h = elim (Option-cases (from_label cfg name)) [
    | inl n ↦ let bad = from_label-rounded cfg name in let none_there = ap image_of n in cc
    | inr ((b, after), f) ↦
        let (eb, er) = some_pair _ _ h (image_target name b after f) refl in
        let anchored = from_label-Anchored cfg cfg name b after distinct f in
        (
          b,
          after,
          f,
          anchored,
          er,
          subst (λ c. Image b.insts after c.insts) (sym eb) (enter b after),
        )
  ]

  next_block :
      (b' c : BasicBlock) (rest' rest : Cfg)
      → b' ∷ rest' ≡ rounded (c ∷ rest)
      → (rest' ≡ rounded rest) × Image c.insts rest b'.insts
  next_block b' c rest' rest e =
      let eb : b' ≡ round_block c rest = cc in
      (cc, subst (λ x. Image c.insts rest x.insts) (sym eb) (enter c rest))

  backward :
      {is' : List Instruction} {rest' : Cfg} {events : List Event} (rest : Cfg)
      {is : List Instruction}
      → Run (rounded cfg) is' rest' events
      → rest' ≡ rounded rest
      → Image is rest is'
      → Anchored cfg rest
      → Run cfg is rest events
  backward rest stop eq s a = stop
  backward [] (fall r) eq same a = cc
  backward (c ∷ rest) (fall {b} {rest = rest'} r) eq same a =
      let (er, s) = next_block b c rest' rest eq in fall (backward rest r er s a.1)
  backward (c ∷ rest) (fall {b} {rest = rest'} r) eq (ends {j} h) a =
      let (er, s) = next_block b c rest' rest eq in
      let d = dropped j c.label h in
      go d.jump d.unconditional (ap (from_label cfg) d.target ∙ a.0 d.named)
        (backward rest r er s a.1)
  backward rest (execute p r) eq same a = execute p (backward rest r eq same a)
  backward rest (execute p r) eq (more s) a = execute p (backward rest r eq s a)
  backward rest (leave p q) eq same a = leave p q
  backward rest (leave p q) eq (more s) a = leave p q
  backward rest (go {i} {after = after} {b = b} p q e r) eq same a =
      let (c, next, f, anchored, er, s) = source_target i.arg0 b after e in
      go p q f (backward next r er s anchored)
  backward rest (go {i} {after = after} {b = b} p q e r) eq (more t) a =
      let (c, next, f, anchored, er, s) = source_target i.arg0 b after e in
      go p q f (backward next r er s anchored)
  backward rest (decide p q) eq same a = decide p q
  backward rest (decide p q) eq (more s) a = decide p q
  backward rest (take {i} {after = after} {b = b} p q e r) eq same a =
      let (c, next, f, anchored, er, s) = source_target i.arg0 b after e in
      take p q f (backward next r er s anchored)
  backward rest (take {i} {after = after} {b = b} p q e r) eq (more t) a =
      let (c, next, f, anchored, er, s) = source_target i.arg0 b after e in
      take p q f (backward next r er s anchored)
  backward rest (pass p q r) eq same a = pass p q (backward rest r eq same a)
  backward rest (pass p q r) eq (more s) a = pass p q (backward rest r eq s a)

  Anchored-rounded : (blocks : Cfg) → Anchored cfg blocks → Anchored (rounded cfg) (rounded blocks)
  Anchored-rounded [] a = tt
  Anchored-rounded (b ∷ rest) (here, a) = (
    λ n.
        let named : is_none b.label ≡ false = rw (same_label b rest) at n in
        rw (same_label b rest) (image_target b.label b rest (here named)),
    Anchored-rounded rest a,
  )

-- A round keeps the labels distinct and the runs the same.
round_keeps :
    (cfg : Cfg)
    → LabelsDistinct cfg
    → LabelsDistinct (eliminate_round cfg).0
      × ((events : List Event) → RunsFrom cfg events ↔ RunsFrom (eliminate_round cfg).0 events)
round_keeps cfg d = rw (rounded_lem cfg) (
  Anchored-rounded cfg d cfg d,
  λ events. (λ r. forward cfg d r same d, λ r. backward cfg d cfg r refl same d),
)

rounds_keep :
    (fuel : ℕ) (cfg out : Cfg)
    → eliminate_rounds fuel cfg ≡ some out
    → LabelsDistinct cfg
    → (events : List Event) → RunsFrom cfg events ↔ RunsFrom out events
unfolding eliminate_rounds
rounds_keep zero cfg out h d events = cc
rounds_keep (suc fuel) cfg out h d events =
    let (d', iff) = round_keeps cfg d in
    elim (Bool-cases (eliminate_round cfg).1) [
      | inl e ↦
          let rest =
            rounds_keep fuel (eliminate_round cfg).0 out (rw (e, eliminate_rounds) at h) d'
              events in
          (λ r. rest.0 ((iff events).0 r), λ r. (iff events).1 (rest.1 r))
      | inr e ↦ let same_out : (eliminate_round cfg).0 ≡ out = cc in rw⁻¹ same_out (iff events)
    ]

-- Where labels are distinct, the graph that `eliminateJumpToNext` gives has the same runs from its
-- first block, event for event.
pub eliminate_jump_to_next_runs :
    (cfg out : Cfg)
    → eliminate_jump_to_next cfg ≡ some out
    → LabelsDistinct cfg
    → (events : List Event) → RunsFrom cfg events ↔ RunsFrom out events
unfolding eliminate_jump_to_next
eliminate_jump_to_next_runs cfg out h d events = rounds_keep _ cfg out h d events
