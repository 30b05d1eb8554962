-- ===== src/Codegen/Frame/Live.antt =====
-- src/codegen/FrameLayout.cpp: the live range of a value holds every instruction that names it.
use trans.Prelude.{
  ℕ, zero, suc, ◌+◌, ◌≤◌, ◌<◌, ◌≡◌, refl, ap, sym, subst, true, some, List, [], ◌∷◌, ◌++◌, length,
  get_elem?, arith, Bool-cases, inl, inr, ◌⊎◌, ◌==◌, ==_iff, if◌then◌else◌,
}
use trans.Codegen.Instruction.{Instruction}
use trans.Codegen.SymbolRefs.{SymbolRefs, collect_symbol_refs}
use trans.Codegen.Cfg.{contains}
use trans.Codegen.Frame.{
  Ranges, find, widen_range, note_live, note_all, Scan, scan_refs, scan_from, scan_body,
}

-- The live range of an id holds an instruction.
pub record Within (live : Ranges) (id i : ℕ) : Type 0 where
  pub range : ℕ × ℕ
  pub found : find live id ≡ some range
  pub from : range.0 ≤ i
  pub to : i ≤ range.1

-- Every range of the table is in order and ends before instruction `n`.
abbrev pub Ordered : ℕ → Ranges → Type 0
Ordered n [] = Unit
Ordered n ((key, (first, last)) ∷ rest) = ((first ≤ last) × (last < n)) × Ordered n rest

pub find-Ordered :
    (n : ℕ) (live : Ranges) (id first last : ℕ)
    → Ordered n live
    → find live id ≡ some (first, last)
    → (first ≤ last) × (last < n)
find-Ordered n [] id first last o e = cc
find-Ordered n ((key, (first', last')) ∷ rest) id first last (o, os) e =
    elim (Bool-cases (key == id)) [
      | inl k ↦
          let found : some (first', last') ≡ some (first, last) = rw k at e in
          let same_first : first' ≡ first = cc in
          let same_last : last' ≡ last = cc in omega (arith, o)
      | inr k ↦ find-Ordered n rest id first last os (rw k at e)
    ]

note_live-Ordered :
    (n : ℕ) (live : Ranges) (id i : ℕ) → i < n → Ordered n live → Ordered n (note_live live id i)
unfolding note_live
note_live-Ordered n [] id i h o = ((omega arith, h), tt)
note_live-Ordered n ((key, (first, last)) ∷ rest) id i h (o, os) = elim (Bool-cases (key == id)) [
  | inl k ↦ rw k (ground arith, os)
  | inr k ↦ rw k (o, note_live-Ordered n rest id i h os)
]

note_all-Ordered :
    (n : ℕ) (live : Ranges) (ids : List ℕ) (i : ℕ)
    → i < n
    → Ordered n live
    → Ordered n (note_all live ids i)
unfolding note_all
note_all-Ordered n live [] i h o = o
note_all-Ordered n live (id ∷ ids) i h o =
    note_all-Ordered n (note_live live id i) ids i h (note_live-Ordered n live id i h o)

scan_refs-Ordered :
    (n : ℕ) (s : Scan) (i : ℕ) (refs : SymbolRefs)
    → i < n
    → Ordered n s.live
    → Ordered n (scan_refs s i refs).live
unfolding scan_refs
scan_refs-Ordered n s i refs h o =
    let live = note_all (note_all s.live refs.uses i) refs.defs i in
    let pending = if refs.is_param then s.pending_params ++ refs.uses else s.pending_params in
    let noted =
      note_all-Ordered n (note_all s.live refs.uses i) refs.defs i h
        (note_all-Ordered n s.live refs.uses i h o) in
    elim (Bool-cases refs.is_call) [
      | inl e ↦ rw e (note_all-Ordered n live pending i h noted)
      | inr e ↦ rw e noted
    ]

scan_from-Ordered :
    (n : ℕ) (s : Scan) (i : ℕ) (body : List Instruction)
    → i + length body ≤ n
    → Ordered n s.live
    → Ordered n (scan_from s i body).live
unfolding scan_from
scan_from-Ordered n s i [] h o = o
scan_from-Ordered n s i (inst ∷ rest) h o =
    scan_from-Ordered n (scan_refs s i (collect_symbol_refs inst)) (suc i) rest (omega arith)
      (scan_refs-Ordered n s i (collect_symbol_refs inst) (omega arith) o)

pub scan_body-Ordered : (body : List Instruction) → Ordered (length body) (scan_body body).live
unfolding scan_body
scan_body-Ordered body = scan_from-Ordered (length body) _ 0 body (omega arith) tt

note_live-Within : (live : Ranges) (id i : ℕ) → Within (note_live live id i) id i
unfolding note_live
note_live-Within [] id i =
    let same = (==_iff id id).1 refl in
    record { range = (i, i); found = rw same refl; from = omega arith; to = omega arith }
note_live-Within ((key, (first, last)) ∷ rest) id i = elim (Bool-cases (key == id)) [
  | inl e ↦ rw e (record {
    range = widen_range (first, last) i;
    found = rw e refl;
    from = ground arith;
    to = ground arith;
  })
  | inr e ↦
      let w = note_live-Within rest id i in
      rw e (record { range = w.range; found = rw e w.found; from = w.from; to = w.to })
]

Within-note_live :
    (live : Ranges) (id i j k : ℕ) → Within live j k → Within (note_live live id i) j k
unfolding note_live
Within-note_live [] id i j k w = let bad = w.found in cc
Within-note_live ((key, (first, last)) ∷ rest) id i j k w = elim (Bool-cases (key == j)) [
  | inl e ↦
      let found : some (first, last) ≡ some w.range = rw e at w.found in
      let same : (first, last) ≡ w.range = cc in
      let lower : first ≡ w.range.0 = ap (λ r. r.0) same in
      let upper : last ≡ w.range.1 = ap (λ r. r.1) same in
      let from : first ≤ k = omega (arith, lower, w.from) in
      let to : k ≤ last = omega (arith, upper, w.to) in
      elim (Bool-cases (key == id)) [
        | inl f ↦ rw f (record {
          range = widen_range (first, last) i;
          found = rw e refl;
          from = ground arith;
          to = ground arith;
        })
        | inr f ↦ rw f (record { range = (first, last); found = rw e refl; from = from; to = to })
      ]
  | inr e ↦
      let tail : find rest j ≡ some w.range = rw e at w.found in
      let later =
        Within-note_live rest id i j k
          (record { range = w.range; found = tail; from = w.from; to = w.to }) in
      elim (Bool-cases (key == id)) [
        | inl f ↦ rw f (record { range = w.range; found = rw e tail; from = w.from; to = w.to })
        | inr f ↦ rw f (record {
          range = later.range;
          found = rw e later.found;
          from = later.from;
          to = later.to;
        })
      ]
]

pub Within-note_all :
    (live : Ranges) (ids : List ℕ) (i j k : ℕ) → Within live j k → Within (note_all live ids i) j k
unfolding note_all
Within-note_all live [] i j k w = w
Within-note_all live (id ∷ ids) i j k w =
    Within-note_all (note_live live id i) ids i j k (Within-note_live live id i j k w)

pub note_all-Within :
    (live : Ranges) (ids : List ℕ) (i id : ℕ)
    → contains ids id ≡ true
    → Within (note_all live ids i) id i
unfolding note_all
note_all-Within live [] i id h = cc
note_all-Within live (n ∷ ids) i id h = elim (Bool-cases (n == id)) [
  | inl e ↦
      let same : n ≡ id = (==_iff n id).0 e in
      subst (λ m. Within (note_all (note_live live n i) ids i) m i) same
        (Within-note_all (note_live live n i) ids i n i (note_live-Within live n i))
  | inr e ↦ note_all-Within (note_live live n i) ids i id (rw e at h)
]

-- The value is one that the instruction uses or defines.
abbrev pub Names : SymbolRefs → ℕ → Type 0
Names refs id = (contains refs.uses id ≡ true) ⊎ (contains refs.defs id ≡ true)

Within-scan_refs :
    (s : Scan) (i : ℕ) (refs : SymbolRefs) (j k : ℕ)
    → Within (note_all (note_all s.live refs.uses i) refs.defs i) j k
    → Within (scan_refs s i refs).live j k
unfolding scan_refs
Within-scan_refs s i refs j k w =
    let pending = if refs.is_param then s.pending_params ++ refs.uses else s.pending_params in
    elim (Bool-cases refs.is_call) [
      | inl e ↦
          rw e
            (Within-note_all (note_all (note_all s.live refs.uses i) refs.defs i) pending i j k w)
      | inr e ↦ rw e w
    ]

named-Within :
    (s : Scan) (i : ℕ) (refs : SymbolRefs) (id : ℕ)
    → Names refs id
    → Within (scan_refs s i refs).live id i
named-Within s i refs id (inl h) = Within-scan_refs s i refs id i (
    Within-note_all (note_all s.live refs.uses i) refs.defs i id i
      (note_all-Within s.live refs.uses i id h))
named-Within s i refs id (inr h) =
    Within-scan_refs s i refs id i (note_all-Within (note_all s.live refs.uses i) refs.defs i id h)

pub Within-scan_from :
    (s : Scan) (i : ℕ) (body : List Instruction) (j k : ℕ)
    → Within s.live j k
    → Within (scan_from s i body).live j k
unfolding scan_from
Within-scan_from s i [] j k w = w
Within-scan_from s i (inst ∷ rest) j k w =
    let refs = collect_symbol_refs inst in
    Within-scan_from (scan_refs s i refs) (suc i) rest j k (
      Within-scan_refs s i refs j k (
        Within-note_all (note_all s.live refs.uses i) refs.defs i j k
          (Within-note_all s.live refs.uses i j k w)))

scan_from-Within :
    (s : Scan) (i : ℕ) (body : List Instruction) (k : ℕ) (inst : Instruction) (id : ℕ)
    → get_elem? body k ≡ some inst
    → Names (collect_symbol_refs inst) id
    → Within (scan_from s i body).live id (i + k)
unfolding scan_from
scan_from-Within s i [] k inst id e n = cc
scan_from-Within s i (x ∷ rest) zero inst id e n =
    let refs = collect_symbol_refs x in
    let same : x ≡ inst = cc in
    let here : i + 0 ≡ i = omega arith in
    rw here (
      Within-scan_from (scan_refs s i refs) (suc i) rest id i
        (named-Within s i refs id (subst (λ y. Names (collect_symbol_refs y) id) (sym same) n)))
scan_from-Within s i (x ∷ rest) (suc k) inst id e n =
    let later : i + suc k ≡ suc i + k = omega arith in
    subst (λ m. Within (scan_from (scan_refs s i (collect_symbol_refs x)) (suc i) rest).live id m)
      (sym later)
      (scan_from-Within (scan_refs s i (collect_symbol_refs x)) (suc i) rest k inst id e n)

-- Each instruction that uses or defines a value lies within the value's live range.
pub scan_body-Within :
    (body : List Instruction) (k : ℕ) (inst : Instruction) (id : ℕ)
    → get_elem? body k ≡ some inst
    → Names (collect_symbol_refs inst) id
    → Within (scan_body body).live id k
unfolding scan_body
scan_body-Within body k inst id e n =
    let start : 0 + k ≡ k = omega arith in
    subst (λ m. Within (scan_body body).live id m) start (scan_from-Within _ 0 body k inst id e n)

pub Ordered-more : (n m : ℕ) (live : Ranges) → n ≤ m → Ordered n live → Ordered m live
Ordered-more n m [] h o = tt
Ordered-more n m ((key, (first, last)) ∷ rest) h (o, os) =
    ((o.0, omega (arith, o, h)), Ordered-more n m rest h os)
