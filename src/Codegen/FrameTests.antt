-- ===== src/Codegen/FrameTests.antt =====
-- The theorems about src/codegen/FrameLayout.cpp and SymbolRefs.cpp at a body with two temporaries.
use trans.Prelude.{
  ℕ, ◌≤◌, ◌≡◌, refl, Bool, true, false, none, some, List, [], ◌∷◌, length, arith, inl, map,
}
use trans.Codegen.Instruction.{Op, Instruction, plain}
use trans.Codegen.SymbolRefs.{collect_symbol_refs}
use trans.Codegen.SymbolRefs.Fit.{collect_symbol_refs_fit}
use trans.Codegen.Frame.{
  Value, scan_body, scan_from, scan_refs, note_all, note_live, live_range, pin_values, intervals,
  sort, insert_sorted, place_intervals, choose_slot, first_fit, occupy, pack_frame_values,
}
use trans.Abi.Words.{value_words}
use trans.Codegen.Frame.Live.{Within, scan_body-Within}
use trans.Codegen.Frame.Reuse.{AllSeparate, pack_frame_values-AllSeparate}

abbrev copy : ℕ → ℕ → Instruction
copy from to = record (plain Op.assign) { arg0 = some from; result = some to }

abbrev body : List Instruction
body = copy 1 2 ∷ copy 2 1 ∷ copy 1 3 ∷ copy 3 1 ∷ []

abbrev value : ℕ → Bool → Value
value id temp = record {
  id = id;
  index = 0;
  size_bytes = 8;
  expression_temp = temp;
  last_use = none;
}

abbrev locals : List Value
locals = value 2 true ∷ value 1 false ∷ value 3 true ∷ []

-- The two temporaries share the word after the variable's.
packed : map (λ v. v.index) (pack_frame_values locals body) ≡ 0 ∷ 1 ∷ 1 ∷ []
unfolding pack_frame_values scan_body scan_from scan_refs note_all note_live live_range pin_values
    intervals sort insert_sorted place_intervals choose_slot first_fit occupy collect_symbol_refs
    value_words
packed = refl

-- A temporary is passed to a call, and another one is set between the two.
abbrev call_body : List Instruction
call_body =
    copy 1 2
    ∷ record (plain Op.argument) { arg0 = some 2 }
    ∷ copy 1 3
    ∷ plain Op.call
    ∷ copy 3 1
    ∷ []

pack_frame_values-AllSeparate_example : AllSeparate call_body (pack_frame_values locals call_body)
pack_frame_values-AllSeparate_example = pack_frame_values-AllSeparate locals call_body (omega arith)

scan_body-Within_example : Within (scan_body body).live 2 1
unfolding collect_symbol_refs
scan_body-Within_example = scan_body-Within body 1 (copy 2 1) 2 refl (inl refl)

collect_symbol_refs_fit_example :
    (length (collect_symbol_refs (copy 1 2)).uses ≤ 2)
    × (length (collect_symbol_refs (copy 1 2)).defs ≤ 1)
collect_symbol_refs_fit_example = collect_symbol_refs_fit (copy 1 2)
