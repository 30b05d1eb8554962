-- ===== src/Codegen/Liveness/Procedure.antt =====
-- src/codegen/Liveness.cpp: the sets of a procedure's blocks, and what the passes ask for. Values are
-- numbered in the order of `ids`; `extra_call_uses` has an entry for each instruction of the body.
use trans.Prelude.{
  ℕ, zero, suc, ◌+◌, ◌<◌, ◌≡◌, refl, ◌∙◌, true, Option, none, some, List, [], ◌∷◌, ◌++◌,
  if◌then◌else◌, ◌==◌, length, get_or, length-set, arith, map, ◌↔◌,
}
use mathlib.Core.Option
use trans.Codegen.Instruction.{Instruction, is_none}
use trans.Codegen.SymbolRefs.{SymbolRefs, collect_symbol_refs}
use trans.Codegen.Cfg.{Cfg, build_cfg}
use trans.Codegen.Liveness.Sets.{Bits, empty_bits, set_bit, test_bit, has_bit}
use trans.Codegen.Liveness.{BlockSets, LiveBits, solve_liveness}
use trans.Codegen.Liveness.Sized.{sets_at, bits_at, width_of, AreSized}
use trans.Codegen.Liveness.Paths.{Needed}
use trans.Codegen.Liveness.Whole.{capacity, solve_liveness_lem}

pub record LinearPrep : Type 0 where
  pub extra_call_uses : List (List ℕ)
  pub address_taken : List ℕ
  pub ids : List ℕ

abbrev index_of : List ℕ → ℕ → Option ℕ
index_of [] id = none
index_of (x ∷ xs) id = if x == id then some 0 else Option.map suc (index_of xs id)

unfoldable pub dense_id : LinearPrep → ℕ → Option ℕ
dense_id prep id = index_of prep.ids id

-- Numbers a value that has no number yet.
abbrev number : List ℕ → ℕ → List ℕ
number ids id = if is_none (index_of ids id) then ids ++ id ∷ [] else ids

abbrev number_all : List ℕ → List ℕ → List ℕ
number_all ids [] = ids
number_all ids (id ∷ rest) = number_all (number ids id) rest

-- The numbers of the uses, which have been given.
abbrev numbers_of : List ℕ → List ℕ → List ℕ
numbers_of ids [] = []
numbers_of ids (id ∷ rest) = elim (index_of ids id) [
  | none ↦ numbers_of ids rest
  | some d ↦ d ∷ numbers_of ids rest
]

abbrev insert_id : List ℕ → Option ℕ → List ℕ
insert_id taken none = taken
insert_id taken (some id) = if is_none (index_of taken id) then taken ++ id ∷ [] else taken

-- The loop over the body, with the arguments that wait for their call.
unfoldable pub prepare_from : LinearPrep → List ℕ → List Instruction → LinearPrep
prepare_from prep pending [] = prep
prepare_from prep pending (inst ∷ rest) =
    let refs = collect_symbol_refs inst in
    let ids = number_all (number_all prep.ids refs.defs) refs.uses in
    let waiting = if refs.is_param then pending ++ numbers_of ids refs.uses else pending in
    prepare_from
      (record {
        extra_call_uses = prep.extra_call_uses ++ (if refs.is_call then waiting else []) ∷ [];
        address_taken = insert_id prep.address_taken refs.address_of_base;
        ids = ids;
      })
      (if refs.is_call then [] else waiting) rest

unfoldable pub prepare : List Instruction → LinearPrep
prepare body = prepare_from (record { extra_call_uses = []; address_taken = []; ids = [] }) [] body

-- A use before any kill in the block.
abbrev pub add_use : BlockSets → Option ℕ → BlockSets
add_use sets d = if test_bit sets.kill d then sets else record sets { gen = set_bit sets.gen d }

abbrev pub add_uses : BlockSets → List (Option ℕ) → BlockSets
add_uses sets [] = sets
add_uses sets (d ∷ rest) = add_uses (add_use sets d) rest

abbrev pub add_kills : BlockSets → List (Option ℕ) → BlockSets
add_kills sets [] = sets
add_kills sets (d ∷ rest) = add_kills (record sets { kill = set_bit sets.kill d }) rest

-- The arguments of the call at `index` of the body.
abbrev pub call_uses : LinearPrep → SymbolRefs → ℕ → List (Option ℕ)
call_uses prep refs index =
    if refs.is_call then map some (get_or prep.extra_call_uses index []) else []

-- The instruction at `index` of the body.
unfoldable pub gen_kill_inst : LinearPrep → BlockSets → ℕ → Instruction → BlockSets
gen_kill_inst prep sets index inst =
    let refs = collect_symbol_refs inst in
    add_kills (add_uses (add_uses sets (call_uses prep refs index)) (map (dense_id prep) refs.uses))
      (map (dense_id prep) refs.defs)

unfoldable pub gen_kill_insts : LinearPrep → BlockSets → ℕ → List Instruction → BlockSets
gen_kill_insts prep sets index [] = sets
gen_kill_insts prep sets index (inst ∷ rest) =
    gen_kill_insts prep (gen_kill_inst prep sets index inst) (suc index) rest

abbrev pub first_index : Option ℕ → ℕ → ℕ
first_index none index = index
first_index (some name) index = suc index

abbrev pub fresh_sets : ℕ → BlockSets
fresh_sets width = record { gen = empty_bits width; kill = empty_bits width }

pub gen_kill_from : LinearPrep → ℕ → ℕ → Cfg → List BlockSets
gen_kill_from prep width index [] = []
gen_kill_from prep width index (b ∷ bs) =
    let start = first_index b.label index in
    gen_kill_insts prep (fresh_sets width) start b.insts
    ∷ gen_kill_from prep width (start + length b.insts) bs

unfoldable pub gen_kill : Cfg → LinearPrep → ℕ → List BlockSets
gen_kill cfg prep width = gen_kill_from prep width 0 cfg

pub record Solved : Type 0 where
  pub cfg : Cfg
  pub prep : LinearPrep
  pub live : LiveBits

unfoldable pub solve : ℕ → List Instruction → Option Solved
solve fuel body =
    let cfg = build_cfg body in
    let prep = prepare body in
    let width = length prep.ids in
    Option.map (λ live. record { cfg = cfg; prep = prep; live = live })
      (solve_liveness fuel cfg (gen_kill cfg prep width) width)

-- Sets of a width.
abbrev pub HasWidth : ℕ → BlockSets → Type 0
HasWidth w sets = (length sets.gen ≡ w) × (length sets.kill ≡ w)

length-set_bit : (bits : Bits) (d : Option ℕ) → length (set_bit bits d) ≡ length bits
unfolding set_bit
length-set_bit bits none = refl
length-set_bit bits (some id) = length-set bits id true

pub add_uses-HasWidth :
    (w : ℕ) (sets : BlockSets) (ds : List (Option ℕ))
    → HasWidth w sets
    → HasWidth w (add_uses sets ds)
add_uses-HasWidth w sets [] h = h
add_uses-HasWidth w sets (d ∷ rest) h =
    add_uses-HasWidth w (add_use sets d) rest (ground (arith, length-set_bit sets.gen d))

pub add_kills-HasWidth :
    (w : ℕ) (sets : BlockSets) (ds : List (Option ℕ))
    → HasWidth w sets
    → HasWidth w (add_kills sets ds)
add_kills-HasWidth w sets [] h = h
add_kills-HasWidth w sets (d ∷ rest) h =
    add_kills-HasWidth w (record sets { kill = set_bit sets.kill d }) rest
      (h.0, length-set_bit sets.kill d ∙ h.1)

pub insts-HasWidth :
    (prep : LinearPrep) (w : ℕ) (sets : BlockSets) (index : ℕ) (insts : List Instruction)
    → HasWidth w sets
    → HasWidth w (gen_kill_insts prep sets index insts)
unfolding gen_kill_insts gen_kill_inst
insts-HasWidth prep w sets index [] h = h
insts-HasWidth prep w sets index (inst ∷ rest) h =
    insts-HasWidth prep w (gen_kill_inst prep sets index inst) (suc index) rest (
      let refs = collect_symbol_refs inst in
      let extra = call_uses prep refs index in
      let uses = map (dense_id prep) refs.uses in
      add_kills-HasWidth w (add_uses (add_uses sets extra) uses) (map (dense_id prep) refs.defs)
        (add_uses-HasWidth w (add_uses sets extra) uses (add_uses-HasWidth w sets extra h)))

gen_kill_from-HasWidth :
    (prep : LinearPrep) (width index : ℕ) (bs : Cfg) (i : ℕ)
    → i < length bs
    → HasWidth (width_of width) (sets_at (gen_kill_from prep width index bs) i)
unfolding gen_kill_from
gen_kill_from-HasWidth prep width index [] i h = absurd (omega arith)
gen_kill_from-HasWidth prep width index (b ∷ bs) zero h =
    insts-HasWidth prep (width_of width) (fresh_sets width) (first_index b.label index) b.insts
      (refl, refl)
gen_kill_from-HasWidth prep width index (b ∷ bs) (suc i) h =
    gen_kill_from-HasWidth prep width (first_index b.label index + length b.insts) bs i
      (omega arith)

gen_kill-AreSized :
    (cfg : Cfg) (prep : LinearPrep) (width : ℕ)
    → AreSized (length cfg) (width_of width) (gen_kill cfg prep width)
unfolding gen_kill
gen_kill-AreSized cfg prep width = record {
  gens = λ i h. (gen_kill_from-HasWidth prep width 0 cfg i h).0;
  kills = λ i h. (gen_kill_from-HasWidth prep width 0 cfg i h).1;
}

-- The sets of the blocks of a body.
abbrev pub body_sets : List Instruction → List BlockSets
body_sets body = gen_kill (build_cfg body) (prepare body) (length (prepare body).ids)

-- For every body, and fuel above the number of bits of its sets, the solution is found, and the value with
-- a number is live at the start of a block exactly if a path leads from there to a block that uses it
-- before any kill, none of the blocks before that one killing it.
pub solve_lem :
    (body : List Instruction) (fuel : ℕ)
    → capacity (build_cfg body) (length (prepare body).ids) < fuel
    → (solved : Solved) × (solve fuel body ≡ some solved)
      × ((i d : ℕ)
          → i < length (build_cfg body)
          → (has_bit (bits_at solved.live.live_in i) d ≡ true)
            ↔ Needed (build_cfg body) (body_sets body) d i)
unfolding solve
solve_lem body fuel h =
    let cfg = build_cfg body in
    let prep = prepare body in
    let width = length prep.ids in
    let r =
      solve_liveness_lem cfg (gen_kill cfg prep width) width (gen_kill-AreSized cfg prep width) fuel
        h in
    (record { cfg = cfg; prep = prep; live = r.0 }, rw r.1 refl, r.2)
