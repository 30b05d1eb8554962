-- ===== src/Codegen/Cfg/RoundTrip.antt =====
-- src/codegen/Cfg.cpp: `buildCfg` and `flattenCfg` against each other, and the shape of the blocks.
use trans.Prelude.{
  ℕ, ◌≡◌, refl, ap, true, false, some, List, [], ◌∷◌, ◌++◌, append-nil, append_assoc, All, arith,
  Bool-cases, inl, inr, sym, ◌∙◌, ◌&&◌,
}
use trans.Codegen.Instruction.{
  Op, label, Instruction, transfers_control, validate_instruction, is_none,
}
use trans.Codegen.Instruction.Contract.{validated_label}
use trans.Codegen.Cfg.{
  BasicBlock, Cfg, is_label_op, empty_block, flush, push_inst, build_from, build_cfg, flatten_cfg,
  label_line, no_items,
}

-- The instruction is valid and, if it is a label, has a name.
pub record IsNamed (i : Instruction) : Type 0 where
  pub valid : validate_instruction i ≡ true
  pub named : is_label_op i.op ≡ true → (name : ℕ) × (i.arg0 ≡ some name)

is_label_op_lem : (o : Op) → is_label_op o ≡ true → o ≡ label
is_label_op_lem o h = ground arith

named_line : (i : Instruction) → IsNamed i → is_label_op i.op ≡ true → label_line i.arg0 ≡ i ∷ []
named_line i n h =
    let (name, e) = n.named h in
    ap label_line e
    ∙ ap (λ j. j ∷ []) (sym (validated_label i name (is_label_op_lem i.op h) e n.valid))

flatten-append : (a b : Cfg) → flatten_cfg (a ++ b) ≡ flatten_cfg a ++ flatten_cfg b
unfolding flatten_cfg
flatten-append [] b = refl
flatten-append (x ∷ a) b = simp (flatten-append a b, append_assoc)

flatten-flush : (b : BasicBlock) → flatten_cfg (flush b) ≡ label_line b.label ++ b.insts
unfolding flatten_cfg
flatten-flush b = ground (arith, append-nil b.insts)

flatten-build_from :
    (current : BasicBlock) (body : List Instruction)
    → All IsNamed body
    → flatten_cfg (build_from current body) ≡ (label_line current.label ++ current.insts) ++ body
unfolding build_from
flatten-build_from current [] h = simp (flatten-flush, append-nil)
flatten-build_from current (i ∷ rest) (n, h) = elim (Bool-cases (is_label_op i.op)) [
  | inl e ↦
      rw (e, build_from)
        (let next = flatten-build_from (record { label = i.arg0; insts = [] }) rest h in
          simp (flatten-append, flatten-flush, next, named_line i n e))
  | inr e ↦
      rw (e, build_from)
        (elim (Bool-cases (transfers_control i)) [
          | inl t ↦
              rw (t, build_from)
                (let next = flatten-build_from empty_block rest h in
                  simp (flatten-append, flatten-flush, next, append_assoc))
          | inr t ↦
              rw (t, build_from)
                (let next = flatten-build_from (push_inst current i) rest h in
                  simp (next, append_assoc))
        ])
]

-- Flattening the blocks of a valid body whose labels have names gives the body.
pub flatten-build :
    (body : List Instruction) → All IsNamed body → flatten_cfg (build_cfg body) ≡ body
unfolding build_cfg
flatten-build body h = flatten-build_from empty_block body h

abbrev NoControl : Instruction → Type 0
NoControl i = (is_label_op i.op ≡ false) × (transfers_control i ≡ false)

-- No instruction is a label, and only the last may transfer control.
abbrev pub Straight : List Instruction → Type 0
Straight [] = Unit
Straight (i ∷ []) = is_label_op i.op ≡ false
Straight (i ∷ j ∷ js) = NoControl i × Straight (j ∷ js)

-- A block has a label or an instruction, and control enters it at the start and leaves at the end.
abbrev pub IsBasic : BasicBlock → Type 0
IsBasic b = ((is_none b.label && no_items b.insts) ≡ false) × Straight b.insts

Straight-push :
    (xs : List Instruction) (i : Instruction)
    → All NoControl xs
    → is_label_op i.op ≡ false
    → Straight (xs ++ i ∷ [])
Straight-push [] i h e = e
Straight-push (x ∷ []) i (p, h) e = (p, e)
Straight-push (x ∷ y ∷ xs) i (p, h) e = (p, Straight-push (y ∷ xs) i h e)

straight : (xs : List Instruction) → All NoControl xs → Straight xs
straight [] h = tt
straight (x ∷ []) (p, h) = p.0
straight (x ∷ y ∷ xs) (p, h) = (p, straight (y ∷ xs) h)

All-append {ℓ κ} :
    {A : Type ℓ} (P : A → Type κ) (xs ys : List A) → All P xs → All P ys → All P (xs ++ ys)
All-append P [] ys p q = q
All-append P (x ∷ xs) ys (h, p) q = (h, All-append P xs ys p q)

flush-IsBasic : (b : BasicBlock) → Straight b.insts → All IsBasic (flush b)
flush-IsBasic b h = elim (Bool-cases (is_none b.label && no_items b.insts)) [
  | inl e ↦ rw e tt
  | inr e ↦ rw e ((e, h), tt)
]

build_from-IsBasic :
    (current : BasicBlock) (body : List Instruction)
    → All NoControl current.insts
    → All IsBasic (build_from current body)
unfolding build_from
build_from-IsBasic current [] h = flush-IsBasic current (straight current.insts h)
build_from-IsBasic current (i ∷ rest) h = elim (Bool-cases (is_label_op i.op)) [
  | inl e ↦
      rw (e, build_from)
        (All-append IsBasic _ _ (flush-IsBasic current (straight current.insts h))
          (build_from-IsBasic (record { label = i.arg0; insts = [] }) rest tt))
  | inr e ↦
      rw (e, build_from)
        (elim (Bool-cases (transfers_control i)) [
          | inl t ↦
              rw (t, build_from)
                (All-append IsBasic _ _
                  (flush-IsBasic (push_inst current i) (Straight-push current.insts i h e))
                  (build_from-IsBasic empty_block rest tt))
          | inr t ↦
              rw (t, build_from)
                (build_from-IsBasic (push_inst current i) rest
                  (All-append NoControl current.insts (i ∷ []) h ((e, t), tt)))
        ])
]

-- Every block of a body has a label or an instruction, holds no label instruction, and only its
-- last instruction may transfer control.
pub build-IsBasic : (body : List Instruction) → All IsBasic (build_cfg body)
unfolding build_cfg
build-IsBasic body = build_from-IsBasic empty_block body tt
