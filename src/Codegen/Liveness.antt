-- ===== src/Codegen/Liveness.antt =====
-- src/codegen/Liveness.cpp: which values are live where. A `Bits` is the list of the bits of its words, so
-- that a set or a test out of its range does nothing. `fixed`: the equations that the solution meets.
-- `paths`: the solution against the paths to a use. `rounds`: the rounds that it takes.
pub mod Sets
pub mod Sized
pub mod Fixed
pub mod Paths
pub mod Rounds
pub mod Whole
pub mod Procedure
pub mod Answers
pub mod Walk
use trans.Prelude.{
  ℕ, zero, suc, ◌+◌, ◌*◌, ◌/◌, Bool, true, false, not, Option, none, some, List, [], ◌∷◌, ◌++◌,
  if◌then◌else◌, ◌&&◌, ◌||◌, length, get_or, get_elem?, set, replicate, map,
}
use trans.Codegen.Instruction.{Instruction, is_none}
use trans.Codegen.SymbolRefs.{SymbolRefs, collect_symbol_refs}
use trans.Codegen.Cfg.{Cfg, BasicBlock, cfg_successors, build_cfg}
use trans.Codegen.Liveness.Sets.{
  Bits, empty_bits, set_bit, clear_bit, test_bit, or_bits, gen_or_kept, same_bits,
}

pub record BlockSets : Type 0 where
  pub gen : Bits
  pub kill : Bits

pub record LiveBits : Type 0 where
  pub live_in : List Bits
  pub live_out : List Bits

-- The union of the sets at the starts of the successors.
abbrev pub union_in : Bits → List Bits → List ℕ → Bits
union_in new_out live_in [] = new_out
union_in new_out live_in (s ∷ rest) = union_in (or_bits new_out (get_or live_in s [])) live_in rest

abbrev pub no_sets : BlockSets
no_sets = record { gen = []; kill = [] }

unfoldable pub new_out : Cfg → ℕ → LiveBits → ℕ → Bits
new_out cfg width live i = union_in (empty_bits width) live.live_in (cfg_successors cfg i)

unfoldable pub new_in : BlockSets → Bits → Bits
new_in sets out = gen_or_kept sets.gen out sets.kill

-- The body of the loop over the blocks, and whether it changed the sets.
unfoldable pub update_block : Cfg → List BlockSets → ℕ → LiveBits → ℕ → LiveBits × Bool
update_block cfg sets width live i =
    let out = new_out cfg width live i in
    let into = new_in (get_or sets i no_sets) out in
    if same_bits into (get_or live.live_in i []) && same_bits out (get_or live.live_out i [])
    then (live, false)
    else (record { live_in = set live.live_in i into; live_out = set live.live_out i out }, true)

-- The loop over the blocks from the last one down, `n` of them still to do.
unfoldable pub update_blocks : Cfg → List BlockSets → ℕ → LiveBits → ℕ → LiveBits × Bool
update_blocks cfg sets width live zero = (live, false)
update_blocks cfg sets width live (suc n) =
    let (next, changed) = update_block cfg sets width live n in
    let (last, later) = update_blocks cfg sets width next n in (last, changed || later)

-- The loop until nothing changes.
unfoldable pub solve_from : ℕ → Cfg → List BlockSets → ℕ → LiveBits → Option LiveBits
solve_from zero cfg sets width live = none
solve_from (suc fuel) cfg sets width live =
    let (next, changed) = update_blocks cfg sets width live (length cfg) in
    elim changed [ true ↦ solve_from fuel cfg sets width next | false ↦ some next ]

abbrev pub no_bits : Cfg → ℕ → List Bits
no_bits cfg width = replicate (length cfg) (empty_bits width)

unfoldable pub solve_liveness : ℕ → Cfg → List BlockSets → ℕ → Option LiveBits
solve_liveness fuel cfg sets width =
    solve_from fuel cfg sets width
      (record { live_in = no_bits cfg width; live_out = no_bits cfg width })
