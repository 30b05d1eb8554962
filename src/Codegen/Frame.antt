-- ===== src/Codegen/Frame.antt =====
-- src/codegen/FrameLayout.cpp: the words of the frame that the values of a procedure get. A value has
-- the fields that the packing reads or sets; its last use is `none` until it is set.
pub mod Slots
pub mod Live
pub mod Apart
pub mod Whole
pub mod Sharing
pub mod Mentions
pub mod Reuse
use trans.Prelude.{
  ℕ, zero, suc, ◌+◌, ◌-◌, ◌^◌, ◌≤◌, Bool, true, false, not, Option, none, some, List, [], ◌∷◌, ◌++◌,
  ltb, leb, ◌==◌, ◌&&◌, ◌||◌, if◌then◌else◌, length, replicate,
}
use trans.Abi.Words.{value_words}
use trans.Codegen.Instruction.{Instruction}
use trans.Codegen.SymbolRefs.{SymbolRefs, collect_symbol_refs, id_list}
use trans.Codegen.Cfg.{contains}

pub record Value : Type 0 where
  pub id : ℕ
  pub index : ℕ
  pub size_bytes : ℕ
  pub expression_temp : Bool
  pub last_use : Option ℕ

abbrev pub pinned_last : ℕ
pinned_last = 2 ^ 31 - 1

-- Whether the `words` slots at the head of the list are free before `first`.
abbrev pub free_before : List ℕ → ℕ → ℕ → Bool
free_before occ zero first = true
free_before [] (suc words) first = false
free_before (last ∷ occ) (suc words) first = ltb last first && free_before occ words first

-- The loop over `start`.
unfoldable pub first_fit : List ℕ → ℕ → ℕ → Option ℕ
first_fit [] words first = if free_before [] words first then some 0 else none
first_fit (last ∷ occ) words first =
    let rest = first_fit occ words first in
    if free_before (last ∷ occ) words first
    then some 0
    else elim rest [ none ↦ none | some start ↦ some (suc start) ]

-- The live range of each id: its first and its last instruction.
abbrev pub Ranges : Type 0
Ranges = List (ℕ × (ℕ × ℕ))

abbrev pub find : Ranges → ℕ → Option (ℕ × ℕ)
find [] id = none
find ((key, range) ∷ rest) id = if key == id then some range else find rest id

abbrev pub widen_range : ℕ × ℕ → ℕ → ℕ × ℕ
widen_range (first, last) i = (if ltb i first then i else first, if ltb last i then i else last)

unfoldable pub note_live : Ranges → ℕ → ℕ → Ranges
note_live [] id i = (id, (i, i)) ∷ []
note_live ((key, range) ∷ rest) id i =
    let others = note_live rest id i in
    if key == id then (key, widen_range range i) ∷ rest else (key, range) ∷ others

unfoldable pub live_range : Ranges → ℕ → ℕ × ℕ
live_range live id = elim (find live id) [ none ↦ (0, 0) | some range ↦ range ]

unfoldable pub note_all : Ranges → List ℕ → ℕ → Ranges
note_all live [] i = live
note_all live (id ∷ ids) i = note_all (note_live live id i) ids i

pub record Scan : Type 0 where
  pub live : Ranges
  pub address_taken : List ℕ
  pub pending_params : List ℕ

-- The body of the loop over the instructions, at instruction `i`.
unfoldable pub scan_refs : Scan → ℕ → SymbolRefs → Scan
scan_refs s i refs =
    let live = note_all (note_all s.live refs.uses i) refs.defs i in
    let taken = id_list refs.address_of_base ++ s.address_taken in
    let pending = if refs.is_param then s.pending_params ++ refs.uses else s.pending_params in
    if refs.is_call
    then record { live = note_all live pending i; address_taken = taken; pending_params = [] }
    else record { live = live; address_taken = taken; pending_params = pending }

unfoldable pub scan_from : Scan → ℕ → List Instruction → Scan
scan_from s i [] = s
scan_from s i (inst ∷ rest) = scan_from (scan_refs s i (collect_symbol_refs inst)) (suc i) rest

unfoldable pub scan_body : List Instruction → Scan
scan_body body = scan_from (record { live = []; address_taken = []; pending_params = [] }) 0 body

abbrev pub is_pinned : Scan → Value → Bool
is_pinned s v = not v.expression_temp || contains s.address_taken v.id

-- The home of a pinned value.
abbrev pub pinned_home : Scan → Value → ℕ → Value
pinned_home s v index =
    if v.expression_temp
    then record v { index = index; last_use = some (live_range s.live v.id).1 }
    else record v { index = index }

-- The loop over the pinned values, from a word on: the values and the words used.
unfoldable pub pin_values : Scan → List Value → ℕ → List Value × ℕ
pin_values s [] words = ([], words)
pin_values s (v ∷ vs) words =
    let rest =
      pin_values s vs (if is_pinned s v then words + value_words v.size_bytes else words) in
    if is_pinned s v then (pinned_home s v words ∷ rest.0, rest.1) else rest

pub record Interval : Type 0 where
  pub value : Value
  pub words : ℕ
  pub first : ℕ
  pub last : ℕ

abbrev pub interval_of : Value → Option (ℕ × ℕ) → List Interval
interval_of v none = []
interval_of v (some (first, last)) =
    record { value = v; words = value_words v.size_bytes; first = first; last = last } ∷ []

unfoldable pub intervals : Scan → List Value → List Interval
intervals s [] = []
intervals s (v ∷ vs) =
    (if is_pinned s v then [] else interval_of v (find s.live v.id)) ++ intervals s vs

-- The order of the sort: by first use, then by id.
abbrev pub before : Interval → Interval → Bool
before a b = if not (a.first == b.first) then ltb a.first b.first else ltb a.value.id b.value.id

-- `std::sort`, by insertion.
unfoldable pub insert_sorted : Interval → List Interval → List Interval
insert_sorted a [] = a ∷ []
insert_sorted a (b ∷ bs) =
    let rest = insert_sorted a bs in if before b a then b ∷ rest else a ∷ b ∷ bs

unfoldable pub sort : List Interval → List Interval
sort [] = []
sort (a ∷ as') = insert_sorted a (sort as')

-- The words from `slot` on, `words` of them, get the last use; the list is long enough.
unfoldable pub occupy : List ℕ → ℕ → ℕ → ℕ → List ℕ
occupy [] slot words last = []
occupy (o ∷ occ) zero zero last = o ∷ occ
occupy (o ∷ occ) zero (suc words) last = last ∷ occupy occ zero words last
occupy (o ∷ occ) (suc slot) words last = o ∷ occupy occ slot words last

-- The slot of an interval, and the words that there are then.
unfoldable pub choose_slot : List ℕ → Interval → ℕ × List ℕ
choose_slot occ iv = elim (first_fit occ iv.words iv.first) [
  | some slot ↦ (slot, occ)
  | none ↦ (length occ, occ ++ replicate iv.words 0)
]

abbrev pub placed_value : Interval → ℕ → Value
placed_value iv slot = record iv.value { index = slot; last_use = some iv.last }

unfoldable pub place_intervals : List ℕ → List Interval → List Value
place_intervals occ [] = []
place_intervals occ (iv ∷ ivs) =
    let chosen = choose_slot occ iv in
    placed_value iv chosen.0 ∷ place_intervals (occupy chosen.1 chosen.0 iv.words iv.last) ivs

unfoldable pub pack_frame_values : List Value → List Instruction → List Value
pack_frame_values locals body =
    let s = scan_body body in
    let pinned = pin_values s locals 0 in
    pinned.0 ++ place_intervals (replicate pinned.1 pinned_last) (sort (intervals s locals))
