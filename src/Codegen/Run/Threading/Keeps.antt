-- ===== src/Codegen/Run/Threading/Keeps.antt =====
-- src/codegen/Cfg.cpp: threading the jumps keeps the runs.
use trans.Prelude.{
  ℕ, ◌≡◌, refl, ap, sym, subst, ◌∙◌, true, false, Bool, Option, some, List, [], ◌∷◌, inl, inr, ◌⊎◌,
}
use trans.Codegen.Instruction.{Instruction, transfers_control, is_unconditional}
use trans.Codegen.Cfg.{BasicBlock, Cfg, is_jump_op, thread_id, thread_inst, thread_block}
use trans.Codegen.Run.{
  Event, executed, branched, Run, stop, fall, execute, leave, go, decide, take, pass, from_label,
  some_pair,
}
use trans.Codegen.Run.Threading.{
  AreTrampolines, Chain, stay, jumps, thread_id-Chain, thread_op, thread_cond, thread_other,
  thread_target, jump_transfers, not_jump, threaded_insts, threaded, from_label-threaded,
}

module _ (cfg : Cfg) (t : List (ℕ × ℕ)) (table : AreTrampolines cfg t) where
  image_target :
      (o : Option ℕ) (b : BasicBlock) (after : Cfg)
      → from_label cfg o ≡ some (b, after)
      → from_label (threaded t cfg) o ≡ some (thread_block t b, threaded t after)
  image_target o b after e = rw (from_label-threaded t cfg o, e) refl

  -- The block of a label, and a run of the threaded graph from it.
  record Lands (o : Option ℕ) (events : List Event) : Type 0 where
    block : BasicBlock
    after : Cfg
    found : from_label cfg o ≡ some (block, after)
    run : Run (threaded t cfg) (threaded_insts t block.insts) (threaded t after) events

  -- What a run from the start of a block gives from the end of a chain to the block.
  abbrev Arrives : List Instruction → Cfg → List Event → Type 0
  Arrives is rest events =
      (o o' : Option ℕ) (b : BasicBlock)
      → from_label cfg o ≡ some (b, rest)
      → b.insts ≡ is
      → Chain t o o'
      → (events ≡ []) ⊎ Lands o' events

  -- At a trampoline the run depends on its jump only.
  arrive :
      {is : List Instruction} {rest : Cfg} {events : List Event}
      → Run (threaded t cfg) (threaded_insts t is) (threaded t rest) events
      → ((i : Instruction) (next : ℕ) (o' : Option ℕ)
          → is ≡ i ∷ []
          → is_jump_op i.op ≡ true
          → is_unconditional i.cond ≡ true
          → i.arg0 ≡ some next
          → Chain t (some next) o'
          → (events ≡ []) ⊎ Lands o' events)
      → Arrives is rest events
  arrive {rest = rest} run k o o' b e eb stay =
      inr (record { block = b; after = rest; found = e; run = rw eb run })
  arrive {rest = rest} run k (some name) o' b e eb (jumps {next = next} f c) =
      let tr = table name next f in
      let (same, _) = some_pair _ _ tr.found e refl in
      k tr.inst next o' (sym eb ∙ ap (λ x. x.insts) (sym same) ∙ tr.single) tr.jump tr.unconditional
        tr.target c

  landed :
      (i : Instruction) (b : BasicBlock) (after : Cfg)
      → is_jump_op i.op ≡ true
      → from_label cfg (thread_id t i.arg0) ≡ some (b, after)
      → from_label (threaded t cfg) (thread_inst t i).arg0
        ≡ some (thread_block t b, threaded t after)
  landed i b after p e =
      ap (from_label (threaded t cfg)) (thread_target t i p)
      ∙ image_target (thread_id t i.arg0) b after e

  threaded_go :
      (i : Instruction) {is : List Instruction} {rest : Cfg} {events : List Event}
      → is_jump_op i.op ≡ true
      → is_unconditional i.cond ≡ true
      → (events ≡ []) ⊎ Lands (thread_id t i.arg0) events
      → Run (threaded t cfg) (thread_inst t i ∷ is) rest events
  threaded_go i p q (inl e) = rw e stop
  threaded_go i p q (inr l) =
      go (thread_op_is i p) (thread_cond_is i true q) (landed i l.block l.after p l.found) l.run
    where
      thread_op_is :
          (j : Instruction) → is_jump_op j.op ≡ true → is_jump_op (thread_inst t j).op ≡ true
      thread_op_is j h = ap is_jump_op (thread_op t j) ∙ h

      thread_cond_is :
          (j : Instruction) (v : Bool)
          → is_unconditional j.cond ≡ v
          → is_unconditional (thread_inst t j).cond ≡ v
      thread_cond_is j v h = ap is_unconditional (thread_cond t j) ∙ h

  threaded_take :
      (i : Instruction) {is : List Instruction} {rest : Cfg} {events : List Event}
      → is_jump_op i.op ≡ true
      → is_unconditional i.cond ≡ false
      → (events ≡ []) ⊎ Lands (thread_id t i.arg0) events
      → Run (threaded t cfg) (thread_inst t i ∷ is) rest (branched i.cond true ∷ events)
  threaded_take i {is} {rest} {events} p q l =
      subst (λ c. Run (threaded t cfg) (thread_inst t i ∷ is) rest (branched c true ∷ events))
        (thread_cond t i) (by_landing l)
    where
      jump : is_jump_op (thread_inst t i).op ≡ true
      jump = ap is_jump_op (thread_op t i) ∙ p

      conditional : is_unconditional (thread_inst t i).cond ≡ false
      conditional = ap is_unconditional (thread_cond t i) ∙ q

      by_landing :
          (events ≡ []) ⊎ Lands (thread_id t i.arg0) events
          → Run
              (threaded t cfg)
              (thread_inst t i ∷ is)
              rest
              (branched (thread_inst t i).cond true ∷ events)
      by_landing (inl e) = rw e (decide jump conditional)
      by_landing (inr x) = take jump conditional (landed i x.block x.after p x.found) x.run

  threaded_pass :
      (i : Instruction) {is : List Instruction} {rest : Cfg} {events : List Event}
      → is_jump_op i.op ≡ true
      → is_unconditional i.cond ≡ false
      → Run (threaded t cfg) is rest events
      → Run (threaded t cfg) (thread_inst t i ∷ is) rest (branched i.cond false ∷ events)
  threaded_pass i {is} {rest} {events} p q r =
      subst (λ c. Run (threaded t cfg) (thread_inst t i ∷ is) rest (branched c false ∷ events))
        (thread_cond t i)
        (pass (ap is_jump_op (thread_op t i) ∙ p) (ap is_unconditional (thread_cond t i) ∙ q) r)

  threaded_execute :
      (i : Instruction) {is : List Instruction} {rest : Cfg} {events : List Event}
      → transfers_control i ≡ false
      → Run (threaded t cfg) is rest events
      → Run (threaded t cfg) (thread_inst t i ∷ is) rest (executed i ∷ events)
  threaded_execute i {is} {rest} {events} p r =
      subst (λ j. Run (threaded t cfg) (j ∷ is) rest (executed i ∷ events))
        (sym (thread_other t i (not_jump i p))) (execute p r)

  threaded_leave :
      (i : Instruction) {is : List Instruction} {rest : Cfg}
      → transfers_control i ≡ true
      → is_jump_op i.op ≡ false
      → Run (threaded t cfg) (thread_inst t i ∷ is) rest (executed i ∷ [])
  threaded_leave i {is} {rest} p q =
      subst (λ j. Run (threaded t cfg) (j ∷ is) rest (executed i ∷ [])) (sym (thread_other t i q))
        (leave p q)

  forward :
      {is : List Instruction} {rest : Cfg} {events : List Event}
      → Run cfg is rest events
      → Run (threaded t cfg) (threaded_insts t is) (threaded t rest) events × Arrives is rest events
  forward stop = (stop, λ o o' b e eb c. inl refl)
  forward (fall r) = let run = fall (forward r).0 in (run, arrive run (λ i next o' e p q x c. cc))
  forward (execute {i} p r) =
      let run = threaded_execute i p (forward r).0 in
      (run, arrive run (λ j next o' e pj q x c. let tj = jump_transfers j pj in cc))
  forward (leave {i} p q) =
      let run = threaded_leave i p q in (run, arrive run (λ j next o' e pj qj x c. cc))
  forward (go {i} {after = after} {b = b} p q e r) =
      let land = (forward r).1 in
      let run =
        threaded_go i p q (land i.arg0 (thread_id t i.arg0) b e refl (thread_id-Chain t i.arg0)) in
      (
        run,
        arrive run (λ j next o' ej pj qj x c.
            let same : i.arg0 ≡ some next = cc in
            land (some next) o' b (ap (from_label cfg) (sym same) ∙ e) refl c),
      )
  forward (decide {i} p q) =
      let run = threaded_take i p q (inl refl) in (run, arrive run (λ j next o' e pj qj x c. cc))
  forward (take {i} {after = after} {b = b} p q e r) =
      let land = (forward r).1 in
      let run =
        threaded_take i p q
          (land i.arg0 (thread_id t i.arg0) b e refl (thread_id-Chain t i.arg0)) in
      (run, arrive run (λ j next o' ej pj qj x c. cc))
  forward (pass {i} p q r) =
      let run = threaded_pass i p q (forward r).0 in (run, arrive run (λ j next o' e pj qj x c. cc))

  -- Each run of the graph is one of the threaded graph.
  pub threaded-Run :
      {is : List Instruction} {rest : Cfg} {events : List Event}
      → Run cfg is rest events
      → Run (threaded t cfg) (threaded_insts t is) (threaded t rest) events
  threaded-Run r = (forward r).0
