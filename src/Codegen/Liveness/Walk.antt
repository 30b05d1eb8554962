-- ===== src/Codegen/Liveness/Walk.antt =====
-- src/codegen/Liveness.cpp: the walk over the instructions of a block against the sets of the block.
use trans.Prelude.{
  ℕ, zero, suc, ◌+◌, ◌*◌, ◌/◌, ◌<◌, ◌≡◌, refl, sym, ap, ◌∙◌, Bool, true, false, not, Option, none,
  some, List, [], ◌∷◌, if◌then◌else◌, ◌==◌, ◌||◌, ◌&&◌, length, set, length-set, ==_iff, arith, map,
  Bool-cases, inl, inr, get_or-replicate,
}
use trans.Codegen.Instruction.{Instruction}
use trans.Codegen.SymbolRefs.{collect_symbol_refs}
use trans.Codegen.Liveness.Sets.{
  Bits, empty_bits, set_bit, clear_bit, test_bit, has_bit, has_bit-gen_or_kept,
}
use trans.Codegen.Liveness.{BlockSets, new_in}
use trans.Codegen.Liveness.Sized.{width_of}
use trans.Codegen.Liveness.Procedure.{
  LinearPrep, HasWidth, dense_id, call_uses, add_uses, add_use, add_kills, add_uses-HasWidth,
  insts-HasWidth, gen_kill_inst, gen_kill_insts, fresh_sets,
}
use trans.Codegen.Liveness.Answers.{clear_all, set_all, live_before, walk_block}

-- A number is one of a list.
abbrev names : List (Option ℕ) → ℕ → Bool
names [] e = false
names (none ∷ rest) e = names rest e
names (some k ∷ rest) e = k == e || names rest e

has_bit-set :
    (bits : Bits) (k e : ℕ) (v : Bool)
    → e < length bits
    → has_bit (set bits k v) e ≡ (if k == e then v else has_bit bits e)
has_bit-set [] k e v h = absurd (omega arith)
has_bit-set (b ∷ bits) zero zero v h = refl
has_bit-set (b ∷ bits) zero (suc e) v h = ground arith
has_bit-set (b ∷ bits) (suc k) zero v h = ground arith
has_bit-set (b ∷ bits) (suc k) (suc e) v h = ground (arith, has_bit-set bits k e v)

-- The length and a bit of a set after each loop.
set_all_lem :
    (later : Bits) (ds : List (Option ℕ)) (e : ℕ)
    → e < length later
    → (length (set_all later ds) ≡ length later)
      × (has_bit (set_all later ds) e ≡ (has_bit later e || names ds e))
unfolding set_bit
set_all_lem later [] e h = (refl, ground arith)
set_all_lem later (none ∷ rest) e h = set_all_lem later rest e h
set_all_lem later (some k ∷ rest) e h =
    let l = length-set later k true in
    let b = has_bit-set later k e true h in
    let r = set_all_lem (set later k true) rest e (omega arith) in (r.0 ∙ l, ground arith)

clear_all_lem :
    (later : Bits) (ds : List (Option ℕ)) (e : ℕ)
    → e < length later
    → (length (clear_all later ds) ≡ length later)
      × (has_bit (clear_all later ds) e ≡ (has_bit later e && not (names ds e)))
unfolding clear_bit
clear_all_lem later [] e h = (refl, ground arith)
clear_all_lem later (none ∷ rest) e h = clear_all_lem later rest e h
clear_all_lem later (some k ∷ rest) e h =
    let l = length-set later k false in
    let b = has_bit-set later k e false h in
    let r = clear_all_lem (set later k false) rest e (omega arith) in (r.0 ∙ l, ground arith)

same_bit : (bits : Bits) (k e : ℕ) → (k == e) ≡ true → has_bit bits k ≡ has_bit bits e
same_bit bits k e h = ap (has_bit bits) ((==_iff k e).0 h)

add_use_lem :
    (sets : BlockSets) (k e : ℕ)
    → e < length sets.gen
    → ((add_use sets (some k)).kill ≡ sets.kill)
      × (has_bit (add_use sets (some k)).gen e
          ≡ (has_bit sets.gen e || (k == e && not (has_bit sets.kill e))))
unfolding set_bit test_bit
add_use_lem sets k e h =
    let b = has_bit-set sets.gen k e true h in
    elim (Bool-cases (has_bit sets.kill k)) [
      | inl t ↦ rw t (refl, ground (arith, same_bit sets.kill k e))
      | inr t ↦ rw t (refl, ground (arith, same_bit sets.kill k e))
    ]

use_bits :
    (g' k' g n s k : Bool)
    → g' ≡ (g || (s && not k))
    → k' ≡ k
    → (g' || (n && not k')) ≡ (g || ((s || n) && not k))
use_bits g' k' g n s k p q = ground arith

add_uses_lem :
    (w : ℕ) (sets : BlockSets) (ds : List (Option ℕ)) (e : ℕ)
    → HasWidth w sets
    → e < w
    → ((add_uses sets ds).kill ≡ sets.kill)
      × (has_bit (add_uses sets ds).gen e
          ≡ (has_bit sets.gen e || (names ds e && not (has_bit sets.kill e))))
unfolding set_bit test_bit
add_uses_lem w sets [] e h lt = (refl, ground arith)
add_uses_lem w sets (none ∷ rest) e h lt = add_uses_lem w sets rest e h lt
add_uses_lem w sets (some k ∷ rest) e h lt =
    let a = add_use_lem sets k e (rw h.0 lt) in
    let r =
      add_uses_lem w (add_use sets (some k)) rest e (add_uses-HasWidth w sets (some k ∷ []) h) lt in
    let c : has_bit (add_use sets (some k)).kill e ≡ has_bit sets.kill e =
      ap (λ b. has_bit b e) a.0 in
    (r.0 ∙ a.0, r.1 ∙ use_bits _ _ _ _ _ _ a.1 c)

add_kills_lem :
    (w : ℕ) (sets : BlockSets) (ds : List (Option ℕ)) (e : ℕ)
    → HasWidth w sets
    → e < w
    → ((add_kills sets ds).gen ≡ sets.gen)
      × (has_bit (add_kills sets ds).kill e ≡ (has_bit sets.kill e || names ds e))
unfolding set_bit
add_kills_lem w sets [] e h lt = (refl, ground arith)
add_kills_lem w sets (none ∷ rest) e h lt = add_kills_lem w sets rest e h lt
add_kills_lem w sets (some k ∷ rest) e h lt =
    let b = has_bit-set sets.kill k e true (rw h.1 lt) in
    let l = length-set sets.kill k true in
    let r =
      add_kills_lem w (record sets { kill = set sets.kill k true }) rest e (h.0, l ∙ h.1) lt in
    (r.0, ground arith)

-- The numbers that an instruction uses, those of its call's arguments apart, and that it defines.
module _ (prep : LinearPrep) (index : ℕ) (inst : Instruction) (e : ℕ) where
  abbrev extra : List (Option ℕ)
  extra = call_uses prep (collect_symbol_refs inst) index

  abbrev uses : List (Option ℕ)
  uses = map (dense_id prep) (collect_symbol_refs inst).uses

  abbrev defs : List (Option ℕ)
  defs = map (dense_id prep) (collect_symbol_refs inst).defs

  live_before_lem :
      (later : Bits)
      → e < length later
      → (length (live_before prep inst index later) ≡ length later)
        × (has_bit (live_before prep inst index later) e
            ≡ (((has_bit later e && not (names defs e)) || names uses e) || names extra e))
  unfolding live_before
  live_before_lem later h =
      let c = clear_all_lem later defs e h in
      let u = set_all_lem (clear_all later defs) uses e (omega (arith, c.0)) in
      let x = set_all_lem (set_all (clear_all later defs) uses) extra e (omega (arith, c.0, u.0)) in
      (x.0 ∙ u.0 ∙ c.0, rw (x.1, u.1, c.1) refl)

  gen_kill_inst_lem :
      (w : ℕ) (sets : BlockSets)
      → HasWidth w sets
      → e < w
      → (has_bit (gen_kill_inst prep sets index inst).gen e ≡ (
          (has_bit sets.gen e || (names extra e && not (has_bit sets.kill e)))
          || (names uses e && not (has_bit sets.kill e))))
        × (has_bit (gen_kill_inst prep sets index inst).kill e
            ≡ (has_bit sets.kill e || names defs e))
  unfolding gen_kill_inst
  gen_kill_inst_lem w sets h lt =
      let hx = add_uses-HasWidth w sets extra h in
      let hu = add_uses-HasWidth w (add_uses sets extra) uses hx in
      let x = add_uses_lem w sets extra e h lt in
      let u = add_uses_lem w (add_uses sets extra) uses e hx lt in
      let k = add_kills_lem w (add_uses (add_uses sets extra) uses) defs e hu lt in
      (
        ap (λ b. has_bit b e) k.0 ∙ u.1 ∙ rw (x.0, x.1) refl,
        k.1 ∙ ap (λ b. has_bit b e || names defs e) (u.0 ∙ x.0),
      )

-- The bits of an instruction, and of those after it, put together.
step_bits :
    (gen kill after extra uses defs gen' kill' before : Bool)
    → gen' ≡ ((gen || (extra && not kill)) || (uses && not kill))
    → kill' ≡ (kill || defs)
    → before ≡ (((after && not defs) || uses) || extra)
    → (gen' || (not kill' && after)) ≡ (gen || (not kill && before))
step_bits gen kill after extra uses defs gen' kill' before p q r = ground arith

walk_bits :
    (prep : LinearPrep) (w : ℕ) (sets : BlockSets) (index : ℕ) (insts : List Instruction)
    (out : Bits) (e : ℕ)
    → HasWidth w sets
    → length out ≡ w
    → e < w
    → (length (walk_block prep index insts out).1 ≡ w)
      × ((has_bit (gen_kill_insts prep sets index insts).gen e
            || (has_bit out e && not (has_bit (gen_kill_insts prep sets index insts).kill e)))
          ≡ (has_bit sets.gen e
              || (not (has_bit sets.kill e) && has_bit (walk_block prep index insts out).1 e)))
unfolding walk_block gen_kill_insts
walk_bits prep w sets index [] out e h o lt = (o, ground arith)
walk_bits prep w sets index (inst ∷ rest) out e h o lt =
    let sets' = gen_kill_inst prep sets index inst in
    let after = (walk_block prep (suc index) rest out).1 in
    let r =
      walk_bits prep w sets' (suc index) rest out e (insts-HasWidth prep w sets index (inst ∷ []) h)
        o lt in
    let b = live_before_lem prep index inst e after (omega (arith, r.0)) in
    let g = gen_kill_inst_lem prep index inst e w sets h lt in
    (b.0 ∙ r.0, r.1 ∙ step_bits _ _ _ _ _ _ _ _ _ g.0 g.1 b.1)

fresh_bits : (g k x : Bool) → g ≡ false → k ≡ false → (g || (not k && x)) ≡ x
fresh_bits g k x p q = ground arith

-- For a set of the width of the procedure at the end of a block, and a number in its range, the equation
-- of the block has the number at the start exactly if the walk back over the block's instructions has it
-- live before the first.
pub walk_block_lem :
    (prep : LinearPrep) (width index : ℕ) (insts : List Instruction) (out : Bits) (e : ℕ)
    → length out ≡ width_of width
    → e < width_of width
    → has_bit (new_in (gen_kill_insts prep (fresh_sets width) index insts) out) e
      ≡ has_bit (walk_block prep index insts out).1 e
unfolding new_in
walk_block_lem prep width index insts out e o lt =
    let h = insts-HasWidth prep (width_of width) (fresh_sets width) index insts (refl, refl) in
    let r =
      walk_bits prep (width_of width) (fresh_sets width) index insts out e (refl, refl) o lt in
    let f : has_bit (empty_bits width) e ≡ false =
      get_or-replicate ((width + 63) / 64 * 64) false e in
    has_bit-gen_or_kept _ out _ e (h.0 ∙ sym o) (h.1 ∙ sym o) ∙ r.1 ∙ fresh_bits _ _ _ f f
