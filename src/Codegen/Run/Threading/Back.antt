-- ===== src/Codegen/Run/Threading/Back.antt =====
-- src/codegen/Cfg.cpp: a run of the threaded graph is one of the graph, and `threadJumps` as a whole.
use trans.Prelude.{
  ℕ, ◌≡◌, refl, ap, sym, ◌∙◌, true, false, Option, some, List, [], ◌∷◌, Bool-cases, Option-cases,
  inl, inr, ◌↔◌,
}
use trans.Codegen.Instruction.{Instruction, is_unconditional}
use trans.Codegen.Cfg.{
  BasicBlock, Cfg, is_jump_op, trampolines, thread_id, thread_inst, thread_block, thread_jumps,
  no_items,
}
use trans.Codegen.Run.{
  Event, Run, stop, fall, execute, leave, go, decide, take, pass, RunsFrom, from_label,
  LabelsDistinct, some_pair,
}
use trans.Codegen.Run.Threading.{
  AreTrampolines, trampolines_lem, Chain, stay, jumps, thread_id-Chain, thread_op, thread_cond,
  thread_other, thread_target, not_jump, threaded_insts, threaded, from_label-threaded, image_of,
}
use trans.Codegen.Run.Threading.Keeps.{threaded-Run}

-- The block that a label leads to, and a run from it.
record Enters (cfg : Cfg) (o : Option ℕ) (events : List Event) : Type 0 where
  block : BasicBlock
  after : Cfg
  found : from_label cfg o ≡ some (block, after)
  run : Run cfg block.insts after events

-- Where the block of a label in the threaded graph is from.
record Source (cfg : Cfg) (t : List (ℕ × ℕ)) (o : Option ℕ) (b' : BasicBlock) (after' : Cfg)
    : Type 0 where
  block : BasicBlock
  after : Cfg
  found : from_label cfg o ≡ some (block, after)
  insts : b'.insts ≡ threaded_insts t block.insts
  others : after' ≡ threaded t after

tail_eq {ℓ} : {A : Type ℓ} (x y : A) (xs ys : List A) → x ∷ xs ≡ y ∷ ys → xs ≡ ys
tail_eq x y xs ys e = cc

module _ (cfg : Cfg) (t : List (ℕ × ℕ)) (table : AreTrampolines cfg t) where
  unchain :
      {o o' : Option ℕ} {events : List Event}
      → Chain t o o'
      → Enters cfg o' events
      → Enters cfg o events
  unchain stay x = x
  unchain (jumps {name} {next} f c) x =
      let tr = table name next f in
      let y = unchain c x in
      record {
        block = tr.block;
        after = tr.after;
        found = tr.found;
        run =
            rw tr.single
              (go tr.jump tr.unconditional (ap (from_label cfg) tr.target ∙ y.found) y.run);
      }

  source :
      (o : Option ℕ) (b' : BasicBlock) (after' : Cfg)
      → from_label (threaded t cfg) o ≡ some (b', after')
      → Source cfg t o b' after'
  source o b' after' h = elim (Option-cases (from_label cfg o)) [
    | inl n ↦ let bad = from_label-threaded t cfg o in let none_there = ap (image_of t) n in cc
    | inr ((b, after), f) ↦
        let e = from_label-threaded t cfg o ∙ ap (image_of t) f in
        let (eb, er) = some_pair _ _ h e refl in
        record { block = b; after = after; found = f; insts = ap (λ x. x.insts) eb; others = er }
  ]

  -- The target of a threaded jump, in the graph.
  Source-jump :
      (i i' : Instruction) (b' : BasicBlock) (after' : Cfg)
      → i' ≡ thread_inst t i
      → is_jump_op i'.op ≡ true
      → from_label (threaded t cfg) i'.arg0 ≡ some (b', after')
      → (is_jump_op i.op ≡ true) × Source cfg t (thread_id t i.arg0) b' after'
  Source-jump i i' b' after' e p h =
      let jump : is_jump_op i.op ≡ true =
        ap is_jump_op (sym (ap (λ x. x.op) e ∙ thread_op t i)) ∙ p in
      (
        jump,
        source (thread_id t i.arg0) b' after' (
            ap (from_label (threaded t cfg)) (sym (ap (λ x. x.arg0) e ∙ thread_target t i jump))
            ∙ h),
      )

  same_op : (i i' : Instruction) → i' ≡ thread_inst t i → i'.op ≡ i.op
  same_op i i' e = ap (λ x. x.op) e ∙ thread_op t i

  same_cond : (i i' : Instruction) → i' ≡ thread_inst t i → i'.cond ≡ i.cond
  same_cond i i' e = ap (λ x. x.cond) e ∙ thread_cond t i

  same_inst : (i i' : Instruction) → i' ≡ thread_inst t i → is_jump_op i'.op ≡ false → i' ≡ i
  same_inst i i' e p = e ∙ thread_other t i (ap is_jump_op (sym (same_op i i' e)) ∙ p)

  backward :
      {is' : List Instruction} {rest' : Cfg} {events : List Event} (rest : Cfg)
      (is : List Instruction)
      → Run (threaded t cfg) is' rest' events
      → is' ≡ threaded_insts t is
      → rest' ≡ threaded t rest
      → Run cfg is rest events
  backward rest is stop ei er = stop
  backward rest (i ∷ is) (fall r) ei er = cc
  backward [] [] (fall r) ei er = cc
  backward (c ∷ rest) [] (fall {b} r) ei er =
      let eb : b ≡ thread_block t c = cc in
      fall (backward rest c.insts r (ap (λ x. x.insts) eb) (tail_eq _ _ _ _ er))
  backward rest [] (execute p r) ei er = cc
  backward rest (i ∷ is) (execute {i = i'} p r) ei er =
      let ej : i' ≡ thread_inst t i = cc in
      let e = same_inst i i' ej (not_jump i' p) in
      let run = backward rest is r (tail_eq _ _ _ _ ei) er in rw e (execute (rw e at p) run)
  backward rest [] (leave p q) ei er = cc
  backward rest (i ∷ is) (leave {i = i'} p q) ei er =
      let ej : i' ≡ thread_inst t i = cc in
      let e = same_inst i i' ej q in rw e (leave (rw e at p) (rw e at q))
  backward rest [] (go p q e r) ei er = cc
  backward rest (i ∷ is) (go {i = i'} {after = after} {b = b} p q e r) ei er =
      let ej : i' ≡ thread_inst t i = cc in
      let (jump, s) = Source-jump i i' b after ej p e in
      let run = backward s.after s.block.insts r s.insts s.others in
      let x =
        unchain (thread_id-Chain t i.arg0)
          (record { block = s.block; after = s.after; found = s.found; run = run }) in
      go jump (ap is_unconditional (sym (same_cond i i' ej)) ∙ q) x.found x.run
  backward rest [] (decide p q) ei er = cc
  backward rest (i ∷ is) (decide {i = i'} p q) ei er =
      let ej : i' ≡ thread_inst t i = cc in
      rw (same_cond i i' ej) (
        decide (ap is_jump_op (sym (same_op i i' ej)) ∙ p)
          (ap is_unconditional (sym (same_cond i i' ej)) ∙ q))
  backward rest [] (take p q e r) ei er = cc
  backward rest (i ∷ is) (take {i = i'} {after = after} {b = b} p q e r) ei er =
      let ej : i' ≡ thread_inst t i = cc in
      let (jump, s) = Source-jump i i' b after ej p e in
      let run = backward s.after s.block.insts r s.insts s.others in
      let x =
        unchain (thread_id-Chain t i.arg0)
          (record { block = s.block; after = s.after; found = s.found; run = run }) in
      rw (same_cond i i' ej)
        (take jump (ap is_unconditional (sym (same_cond i i' ej)) ∙ q) x.found x.run)
  backward rest [] (pass p q r) ei er = cc
  backward rest (i ∷ is) (pass {i = i'} p q r) ei er =
      let ej : i' ≡ thread_inst t i = cc in
      let run = backward rest is r (tail_eq _ _ _ _ ei) er in
      rw (same_cond i i' ej) (
        pass (ap is_jump_op (sym (same_op i i' ej)) ∙ p)
          (ap is_unconditional (sym (same_cond i i' ej)) ∙ q) run)

-- Where labels are distinct, threading the jumps keeps the runs of the graph from its first block,
-- event for event.
pub thread_jumps_runs :
    (cfg : Cfg)
    → LabelsDistinct cfg
    → (events : List Event) → RunsFrom cfg events ↔ RunsFrom (thread_jumps cfg) events
unfolding thread_jumps
thread_jumps_runs cfg d events =
    let t = trampolines cfg [] in
    let table = trampolines_lem cfg cfg [] d (λ name next e. cc) in
    elim (Bool-cases (no_items t)) [
      | inl e ↦ rw e (λ r. r, λ r. r)
      | inr e ↦ rw e (λ r. threaded-Run cfg t table r, λ r. backward cfg t table cfg [] r refl refl)
    ]
