-- ===== src/Codegen/Cfg/Visits.antt =====
-- src/codegen/Cfg.cpp: what marking and visiting blocks does to the search of `eliminateUnreachable`.
use trans.Prelude.{
  ℕ, zero, suc, ◌+◌, ◌<◌, ◌≡◌, refl, ap, sym, ◌∙◌, true, false, Bool, List, [], ◌∷◌, length, get_or,
  set, All, arith, Bool-cases, inl, inr, ◌⊎◌, ◌==◌, ==_iff, get_or-set-same, get_or-set-other,
  length-set,
}
use trans.Codegen.Cfg.{contains, Work, mark, visit}

abbrev pub Flagged : Work → ℕ → Type 0
Flagged w i = get_or w.reachable i false ≡ true

abbrev pub open_count : List Bool → ℕ
open_count [] = 0
open_count (true ∷ xs) = open_count xs
open_count (false ∷ xs) = suc (open_count xs)

abbrev pub Below : ℕ → ℕ → Type 0
Below n i = i < n

open_count-set :
    (xs : List Bool) (i : ℕ)
    → i < length xs
    → get_or xs i false ≡ false
    → suc (open_count (set xs i true)) ≡ open_count xs
open_count-set [] i h e = ground arith
open_count-set (true ∷ xs) zero h e = cc
open_count-set (false ∷ xs) zero h e = refl
open_count-set (true ∷ xs) (suc i) h e = open_count-set xs i (omega arith) e
open_count-set (false ∷ xs) (suc i) h e = ap suc (open_count-set xs i (omega arith) e)

-- What marking a block does.
pub record Marks (w w' : Work) (s : ℕ) : Type 0 where
  pub size : length w'.reachable ≡ length w.reachable
  pub marked : Flagged w' s
  pub kept : (i : ℕ) → Flagged w i → Flagged w' i
  pub new : (i : ℕ) → Flagged w' i → Flagged w i ⊎ (i ≡ s)
  pub pending : (i : ℕ) → contains w.work i ≡ true → contains w'.work i ≡ true
  pub queued : (i : ℕ) → Flagged w' i → Flagged w i ⊎ (contains w'.work i ≡ true)
  pub only : (i : ℕ) → contains w'.work i ≡ true → (contains w.work i ≡ true) ⊎ Flagged w' i
  pub count : length w'.work + open_count w'.reachable ≡ length w.work + open_count w.reachable

mark-Marks : (w : Work) (s : ℕ) → s < length w.reachable → Marks w (mark w s) s
mark-Marks w s h = elim (Bool-cases (get_or w.reachable s false)) [
  | inl e ↦ rw e (record {
    size = refl;
    marked = e;
    kept = λ i f. f;
    new = λ i f. inl f;
    pending = λ i c. c;
    queued = λ i f. inl f;
    only = λ i c. inl c;
    count = refl;
  })
  | inr e ↦ rw e (record {
    size = length-set w.reachable s true;
    marked = get_or-set-same w.reachable s true false h;
    kept = kept_set;
    new = new_set;
    pending = λ i c. ground arith;
    queued = queued_set;
    only = only_set;
    count = omega (arith, open_count-set w.reachable s h e);
  })
]
  where
    other :
        (i : ℕ)
        → (s == i) ≡ false
        → get_or (set w.reachable s true) i false ≡ get_or w.reachable i false
    other i n = get_or-set-other w.reachable s i true false (λ e. let t = (==_iff s i).1 e in cc)

    kept_set : (i : ℕ) → Flagged w i → get_or (set w.reachable s true) i false ≡ true
    kept_set i f = elim (Bool-cases (s == i)) [
      | inl e ↦ rw⁻¹ ((==_iff s i).0 e) (get_or-set-same w.reachable s true false h)
      | inr n ↦ rw (other i n) f
    ]

    new_set : (i : ℕ) → get_or (set w.reachable s true) i false ≡ true → Flagged w i ⊎ (i ≡ s)
    new_set i f = elim (Bool-cases (s == i)) [
      | inl e ↦ inr (sym ((==_iff s i).0 e))
      | inr n ↦ inl (rw (other i n) at f)
    ]

    only_set :
        (i : ℕ)
        → contains (s ∷ w.work) i ≡ true
        → (contains w.work i ≡ true) ⊎ (get_or (set w.reachable s true) i false ≡ true)
    only_set i c = elim (Bool-cases (s == i)) [
      | inl e ↦ inr (rw⁻¹ ((==_iff s i).0 e) (get_or-set-same w.reachable s true false h))
      | inr n ↦ inl (rw n at c)
    ]

    queued_set :
        (i : ℕ)
        → get_or (set w.reachable s true) i false ≡ true
        → Flagged w i ⊎ (contains (s ∷ w.work) i ≡ true)
    queued_set i f = elim (Bool-cases (s == i)) [
      | inl e ↦ inr (rw e refl)
      | inr n ↦ inl (rw (other i n) at f)
    ]

-- What visiting a list of blocks does.
pub record Visits (w w' : Work) (ss : List ℕ) : Type 0 where
  pub size : length w'.reachable ≡ length w.reachable
  pub marked : (i : ℕ) → contains ss i ≡ true → Flagged w' i
  pub kept : (i : ℕ) → Flagged w i → Flagged w' i
  pub new : (i : ℕ) → Flagged w' i → Flagged w i ⊎ (contains ss i ≡ true)
  pub pending : (i : ℕ) → contains w.work i ≡ true → contains w'.work i ≡ true
  pub queued : (i : ℕ) → Flagged w' i → Flagged w i ⊎ (contains w'.work i ≡ true)
  pub only : (i : ℕ) → contains w'.work i ≡ true → (contains w.work i ≡ true) ⊎ Flagged w' i
  pub count : length w'.work + open_count w'.reachable ≡ length w.work + open_count w.reachable

pub contains_cases :
    (s : ℕ) (ss : List ℕ) (i : ℕ) → contains (s ∷ ss) i ≡ true → (i ≡ s) ⊎ (contains ss i ≡ true)
contains_cases s ss i h = ground (arith, (==_iff s i).0)

pub contains_here : (s : ℕ) (ss : List ℕ) (i : ℕ) → i ≡ s → contains (s ∷ ss) i ≡ true
contains_here s ss i e = ground arith

pub contains_there :
    (s : ℕ) (ss : List ℕ) (i : ℕ) → contains ss i ≡ true → contains (s ∷ ss) i ≡ true
contains_there s ss i e = ground arith

pub visit-Visits :
    (w : Work) (ss : List ℕ) → All (Below (length w.reachable)) ss → Visits w (visit w ss) ss
unfolding visit
visit-Visits w [] h = record {
  size = refl;
  marked = λ i c. cc;
  kept = λ i f. f;
  new = λ i f. inl f;
  pending = λ i c. c;
  queued = λ i f. inl f;
  only = λ i c. inl c;
  count = refl;
}
visit-Visits w (s ∷ ss) (p, h) =
    let m = mark-Marks w s p in
    let v = visit-Visits (mark w s) ss (rw m.size h) in
    record {
      size = v.size ∙ m.size;
      marked = λ i c. elim (contains_cases s ss i c) [
        | inl e ↦ v.kept i (rw e m.marked)
        | inr there ↦ v.marked i there
      ];
      kept = λ i f. v.kept i (m.kept i f);
      new = λ i f. elim (v.new i f) [
        | inl g ↦ elim (m.new i g) [ inl old ↦ inl old | inr e ↦ inr (contains_here s ss i e) ]
        | inr there ↦ inr (contains_there s ss i there)
      ];
      pending = λ i c. v.pending i (m.pending i c);
      queued = λ i f. elim (v.queued i f) [
        | inl g ↦ elim (m.queued i g) [ inl old ↦ inl old | inr c ↦ inr (v.pending i c) ]
        | inr c ↦ inr c
      ];
      only = λ i c. elim (v.only i c) [
        | inl d ↦ elim (m.only i d) [ inl old ↦ inl old | inr f ↦ inr (v.kept i f) ]
        | inr f ↦ inr f
      ];
      count = v.count ∙ m.count;
    }
