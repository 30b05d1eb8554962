-- ===== src/Codegen/Cfg/Search.antt =====
-- src/codegen/Cfg.cpp: the search of `eliminateUnreachable` ends and finds the reachable blocks.
use trans.Prelude.{
  ℕ, zero, suc, ◌+◌, ◌<◌, ◌≡◌, refl, ap, ◌∙◌, true, false, Bool, Option, none, some, List, [], ◌∷◌,
  length, get_or, set, replicate, All, arith, inl, inr, ◌⊎◌, ◌↔◌, List-cases, get_or-set-same,
  get_or-set-other, get_or-replicate, length-set, length-replicate, get_elem?,
}
use trans.Codegen.Instruction.{Instruction}
use trans.Codegen.Cfg.{
  Cfg, cfg_successors, successors_of, last_of, contains, Work, visit, search, keep, entry_work,
  eliminate_unreachable,
}
use trans.Codegen.Cfg.Visits.{
  Flagged, open_count, Below, visit-Visits, contains_cases, contains_here, contains_there,
}

-- The blocks that control can reach from the first.
pub data Reachable (cfg : Cfg) : ℕ → Type 0 where
  entry : Reachable cfg 0
  step : {i j : ℕ} → Reachable cfg i → contains (cfg_successors cfg i) j ≡ true → Reachable cfg j

-- The successors of a block are blocks of the graph.
pub cfg_successors-Below : (cfg : Cfg) (i : ℕ) → All (Below (length cfg)) (cfg_successors cfg i)
unfolding cfg_successors successors_of
cfg_successors-Below cfg i = below (last_of (get_elem? cfg i))
  where
    below : (o : Option Instruction) → All (Below (length cfg)) (successors_of cfg i o)
    below none = ground arith
    below (some inst) = ground arith

-- What the search keeps.
record Inv (cfg : Cfg) (w : Work) : Type 0 where
  size : length w.reachable ≡ length cfg
  entered : Flagged w 0
  sound : (i : ℕ) → Flagged w i → Reachable cfg i
  closed :
      (i : ℕ)
      → Flagged w i
      → (contains w.work i ≡ true)
        ⊎ ((j : ℕ) → contains (cfg_successors cfg i) j ≡ true → Flagged w j)
  pending : (i : ℕ) → contains w.work i ≡ true → Flagged w i

step-Inv :
    (cfg : Cfg) (w : Work) (i : ℕ) (rest : List ℕ)
    → w.work ≡ i ∷ rest
    → Inv cfg w
    → Inv cfg (visit (record w { work = rest }) (cfg_successors cfg i))
step-Inv cfg w i rest e inv =
    let popped = record w { work = rest } in
    let v = visit-Visits popped (cfg_successors cfg i) (rw inv.size (cfg_successors-Below cfg i)) in
    let flagged = inv.pending i (rw e (contains_here i rest i refl)) in
    record {
      size = v.size ∙ inv.size;
      entered = v.kept 0 inv.entered;
      sound = λ k f. elim (v.new k f) [
        | inl old ↦ inv.sound k old
        | inr next ↦ step (inv.sound i flagged) next
      ];
      closed = λ k f. elim (v.queued k f) [
        | inl old ↦ elim (inv.closed k old) [
          | inl here ↦ elim (contains_cases i rest k (rw e at here)) [
            | inl same ↦ inr (rw same v.marked)
            | inr there ↦ inl (v.pending k there)
          ]
          | inr all ↦ inr (λ j c. v.kept j (all j c))
        ]
        | inr c ↦ inl c
      ];
      pending = λ k c. elim (v.only k c) [
        | inl there ↦ v.kept k (inv.pending k (rw e (contains_there i rest k there)))
        | inr f ↦ f
      ];
    }

-- The flags that the search ends with are those of the reachable blocks.
pub record Found (cfg : Cfg) (flags : List Bool) : Type 0 where
  pub size : length flags ≡ length cfg
  pub exact : (i : ℕ) → (get_or flags i false ≡ true) ↔ Reachable cfg i

found : (cfg : Cfg) (w : Work) → w.work ≡ [] → Inv cfg w → Found cfg w.reachable
found cfg w e inv = record { size = inv.size; exact = λ i. (inv.sound i, complete) }
  where
    complete : {i : ℕ} → Reachable cfg i → Flagged w i
    complete entry = inv.entered
    complete (step {i} {j} r c) = elim (inv.closed i (complete r)) [
      | inl waiting ↦ let none_waits = rw e at waiting in cc
      | inr all ↦ all j c
    ]

search-Found :
    (cfg : Cfg) (fuel : ℕ) (w : Work)
    → length w.work + open_count w.reachable < fuel
    → Inv cfg w
    → (flags : List Bool) × (search cfg fuel w ≡ some flags) × Found cfg flags
unfolding search
search-Found cfg zero w h inv = ground arith
search-Found cfg (suc fuel) w h inv = elim (List-cases w.work) [
  | inl e ↦ rw (e, search) (w.reachable, refl, found cfg w e inv)
  | inr (i, rest, e) ↦
      let popped = record w { work = rest } in
      let v =
        visit-Visits popped (cfg_successors cfg i) (rw inv.size (cfg_successors-Below cfg i)) in
      rw (e, search)
        (search-Found cfg fuel (visit popped (cfg_successors cfg i))
          (let shorter : length w.work ≡ suc (length rest) = ap length e in omega (arith, v.count))
          (step-Inv cfg w i rest e inv))
]

entry-Inv : (cfg : Cfg) → 0 < length cfg → Inv cfg (entry_work cfg)
entry-Inv cfg h =
    let flags = replicate (length cfg) false in
    let first = get_or-set-same flags 0 true false (rw (length-replicate (length cfg) false) h) in
    record {
      size = length-set flags 0 true ∙ length-replicate (length cfg) false;
      entered = first;
      sound = λ i f. rw (only_entry i f) entry;
      closed = λ i f. inl (contains_here 0 [] i (only_entry i f));
      pending = λ i c. elim (contains_cases 0 [] i c) [ inl e ↦ rw e first | inr none_left ↦ cc ];
    }
  where
    only_entry : (i : ℕ) → get_or (set (replicate (length cfg) false) 0 true) i false ≡ true → i ≡ 0
    only_entry zero f = refl
    only_entry (suc i) f =
        let flags = replicate (length cfg) false in
        let other = get_or-set-other flags 0 (suc i) true false (λ e. ground arith) in
        let default = get_or-replicate (length cfg) false (suc i) in cc

open_count-replicate : (n : ℕ) → open_count (replicate n false) ≡ n
open_count-replicate zero = refl
open_count-replicate (suc n) = ap suc (open_count-replicate n)

-- In a graph with a block the search ends and keeps, in order, the blocks that control can reach from
-- the first, and no others.
pub eliminate_unreachable_lem :
    (cfg : Cfg)
    → 0 < length cfg
    → (flags : List Bool) × (eliminate_unreachable cfg ≡ some (keep flags cfg)) × Found cfg flags
unfolding eliminate_unreachable
eliminate_unreachable_lem [] h = ground arith
eliminate_unreachable_lem (b ∷ bs) h =
    let cfg = b ∷ bs in
    let (flags, e, f) =
      search-Found cfg (suc (length cfg)) (entry_work cfg)
        (omega (arith, open_count-replicate (length bs))) (entry-Inv cfg h) in
    (flags, rw (e, eliminate_unreachable) refl, f)
