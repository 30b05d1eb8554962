-- ===== src/Codegen/Frame/Mentions.antt =====
-- src/codegen/FrameLayout.cpp: the instructions that read or write a value, told from the body alone,
-- and what the scan of the body records of them.
use trans.Prelude.{
  ℕ, zero, suc, ◌+◌, ◌≡◌, refl, subst, Bool, true, false, ◌||◌, some, List, [], ◌∷◌, ◌++◌,
  get_elem?, arith, Bool-cases, inl, inr, ◌⊎◌, if◌then◌else◌,
}
use trans.Codegen.Instruction.{Instruction}
use trans.Codegen.SymbolRefs.{SymbolRefs, collect_symbol_refs, id_list}
use trans.Codegen.Cfg.{contains}
use trans.Codegen.Frame.{Scan, note_all, scan_refs, scan_from, scan_body}
use trans.Codegen.Frame.Live.{Names, Within, note_all-Within, Within-scan_from, scan_body-Within}

-- The first call of the body is at a position.
pub data FirstCall : List Instruction → ℕ → Type 0 where
  here :
      {i : Instruction} {body : List Instruction}
      → (collect_symbol_refs i).is_call ≡ true
      → FirstCall (i ∷ body) 0
  later :
      {i : Instruction} {body : List Instruction} {k : ℕ}
      → (collect_symbol_refs i).is_call ≡ false
      → FirstCall body k
      → FirstCall (i ∷ body) (suc k)

-- The value is an argument of the call at a position: the call is the first one after an instruction
-- that passes the value.
pub data IsArgument (id : ℕ) : List Instruction → ℕ → Type 0 where
  passed :
      {i : Instruction} {body : List Instruction} {k : ℕ}
      → (collect_symbol_refs i).is_param ≡ true
      → contains (collect_symbol_refs i).uses id ≡ true
      → FirstCall (i ∷ body) k
      → IsArgument id (i ∷ body) k
  later :
      {i : Instruction} {body : List Instruction} {k : ℕ}
      → IsArgument id body k
      → IsArgument id (i ∷ body) (suc k)

-- The instruction at a position uses or defines the value.
abbrev pub NamedAt : List Instruction → ℕ → ℕ → Type 0
NamedAt body id k =
    (i : Instruction) × (get_elem? body k ≡ some i) × Names (collect_symbol_refs i) id

-- The instruction at a position uses or defines the value, or is a call that the value is passed to.
abbrev pub Mentions : List Instruction → ℕ → ℕ → Type 0
Mentions body id k = NamedAt body id k ⊎ IsArgument id body k

-- Some instruction takes the address of the value.
abbrev pub takes_address : List Instruction → ℕ → Bool
takes_address [] id = false
takes_address (i ∷ body) id =
    contains (id_list (collect_symbol_refs i).address_of_base) id || takes_address body id

contains-append :
    (xs ys : List ℕ) (id : ℕ) → contains (xs ++ ys) id ≡ (contains xs id || contains ys id)
contains-append [] ys id = refl
contains-append (x ∷ xs) ys id = ground (arith, contains-append xs ys id)

address_taken-scan_refs :
    (s : Scan) (i : ℕ) (refs : SymbolRefs)
    → (scan_refs s i refs).address_taken ≡ id_list refs.address_of_base ++ s.address_taken
unfolding scan_refs
address_taken-scan_refs s i refs = elim (Bool-cases refs.is_call) [
  | inl e ↦ rw e refl
  | inr e ↦ rw e refl
]

or_moved : (a b c : Bool) → (c || (a || b)) ≡ ((a || c) || b)
or_moved a b c = ground arith

scan_from-taken :
    (s : Scan) (i : ℕ) (body : List Instruction) (id : ℕ)
    → contains (scan_from s i body).address_taken id
      ≡ (contains s.address_taken id || takes_address body id)
unfolding scan_from
scan_from-taken s i [] id = ground arith
scan_from-taken s i (inst ∷ rest) id =
    let refs = collect_symbol_refs inst in
    let ids = id_list refs.address_of_base in
    let next = scan_from-taken (scan_refs s i refs) (suc i) rest id in
    let moved = or_moved (contains ids id) (takes_address rest id) (contains s.address_taken id) in
    rw (next, address_taken-scan_refs s i refs, contains-append ids s.address_taken id, moved) refl

-- The ids whose address the scan has seen taken are those whose address the body takes.
pub scan_body-taken :
    (body : List Instruction) (id : ℕ)
    → contains (scan_body body).address_taken id ≡ takes_address body id
unfolding scan_body
scan_body-taken body id = scan_from-taken _ 0 body id

contains-left : (xs ys : List ℕ) (id : ℕ) → contains xs id ≡ true → contains (xs ++ ys) id ≡ true
contains-left xs ys id h = rw (contains-append xs ys id, h) refl

or_right : (a b : Bool) → b ≡ true → (a || b) ≡ true
or_right a b h = ground arith

contains-right : (xs ys : List ℕ) (id : ℕ) → contains ys id ≡ true → contains (xs ++ ys) id ≡ true
contains-right xs ys id h =
    rw (contains-append xs ys id) (or_right (contains xs id) (contains ys id) h)

-- The arguments that wait for a call when an instruction has been read, a call left aside.
abbrev waiting : Scan → SymbolRefs → List ℕ
waiting s refs = if refs.is_param then s.pending_params ++ refs.uses else s.pending_params

waiting-kept :
    (s : Scan) (refs : SymbolRefs) (id : ℕ)
    → contains s.pending_params id ≡ true
    → contains (waiting s refs) id ≡ true
waiting-kept s refs id h = elim (Bool-cases refs.is_param) [
  | inl e ↦ rw e (contains-left s.pending_params refs.uses id h)
  | inr e ↦ rw e h
]

waiting-Within :
    (s : Scan) (i : ℕ) (body : List Instruction) (k id : ℕ)
    → FirstCall body k
    → ((inst : Instruction) (rest : List Instruction)
        → body ≡ inst ∷ rest
        → contains (waiting s (collect_symbol_refs inst)) id ≡ true)
    → Within (scan_from s i body).live id (i + k)
unfolding scan_from scan_refs
waiting-Within s i [] k id f h = elim f [ ]
waiting-Within s i (inst ∷ rest) zero id (here c) h =
    let refs = collect_symbol_refs inst in
    let start : i + 0 ≡ i = omega arith in
    let noted : Within (scan_refs s i refs).live id i = rw c (
      note_all-Within (note_all (note_all s.live refs.uses i) refs.defs i) (waiting s refs) i id
        (h inst rest refl)) in
    rw start (Within-scan_from (scan_refs s i refs) (suc i) rest id i noted)
waiting-Within s i (inst ∷ rest) (suc k) id (later c f) h =
    let refs = collect_symbol_refs inst in
    let after = scan_refs s i refs in
    let pending : after.pending_params ≡ waiting s refs = rw c refl in
    let step : i + suc k ≡ suc i + k = omega arith in
    rw step (
      waiting-Within after (suc i) rest k id f (λ next others e.
        waiting-kept after (collect_symbol_refs next) id (rw pending (h inst rest refl))))

argument-Within :
    (s : Scan) (i : ℕ) (body : List Instruction) (k id : ℕ)
    → IsArgument id body k
    → Within (scan_from s i body).live id (i + k)
unfolding scan_from
argument-Within s i [] k id a = elim a [ ]
argument-Within s i (inst ∷ rest) k id (passed p u f) =
    waiting-Within s i (inst ∷ rest) k id f (λ next others e.
      let same : inst ≡ next = cc in
      subst (λ x. contains (waiting s (collect_symbol_refs x)) id ≡ true) same
        (rw p (contains-right s.pending_params (collect_symbol_refs inst).uses id u)))
argument-Within s i (inst ∷ rest) (suc k) id (later a) =
    let step : i + suc k ≡ suc i + k = omega arith in
    rw step (argument-Within (scan_refs s i (collect_symbol_refs inst)) (suc i) rest k id a)

-- What mentions a value lies within its live range.
pub Mentions-Within :
    (body : List Instruction) (id k : ℕ) → Mentions body id k → Within (scan_body body).live id k
unfolding scan_body
Mentions-Within body id k (inl (i, e, n)) = scan_body-Within body k i id e n
Mentions-Within body id k (inr a) =
    let start : 0 + k ≡ k = omega arith in
    subst (λ m. Within (scan_body body).live id m) start (argument-Within _ 0 body k id a)
