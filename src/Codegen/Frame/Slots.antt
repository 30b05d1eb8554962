-- ===== src/Codegen/Frame/Slots.antt =====
-- src/codegen/FrameLayout.cpp: words are shared only by values that do not live at the same time.
use trans.Prelude.{
  ℕ, zero, suc, ◌+◌, ◌≤◌, ◌<◌, ◌≡◌, refl, ap, subst, true, some, List, [], ◌∷◌, ◌++◌, length,
  get_or, replicate, arith, Bool-cases, Option-cases, inl, inr, ◌⊎◌, length-append,
  length-replicate,
}
use trans.Codegen.Frame.{Interval, free_before, first_fit, occupy, choose_slot}

some_eq : {a b : ℕ} → some a ≡ some b → a ≡ b
some_eq h = cc

-- What is known where a stretch of words is free before an instruction.
record FreeAt (occ : List ℕ) (slot words first : ℕ) : Type 0 where
  room : slot + words ≤ length occ
  free : (k : ℕ) → slot ≤ k → k < slot + words → get_or occ k 0 < first

FreeAt-cons :
    (occ : List ℕ) (last words first : ℕ)
    → last < first
    → FreeAt occ 0 words first
    → FreeAt (last ∷ occ) 0 (suc words) first
FreeAt-cons occ last words first h f = record { room = omega (arith, f.room); free = at }
  where
    at : (k : ℕ) → 0 ≤ k → k < 0 + suc words → get_or (last ∷ occ) k 0 < first
    at zero p q = h
    at (suc k) p q = f.free k (omega arith) (omega arith)

FreeAt-later :
    (occ : List ℕ) (o slot words first : ℕ)
    → FreeAt occ slot words first
    → FreeAt (o ∷ occ) (suc slot) words first
FreeAt-later occ o slot words first f = record { room = omega (arith, f.room); free = at }
  where
    at : (k : ℕ) → suc slot ≤ k → k < suc slot + words → get_or (o ∷ occ) k 0 < first
    at zero p q = ground arith
    at (suc k) p q = f.free k (omega arith) (omega arith)

free_before-FreeAt :
    (occ : List ℕ) (words first : ℕ) → free_before occ words first ≡ true → FreeAt occ 0 words first
free_before-FreeAt occ zero first h = record { room = omega arith; free = λ k p q. ground arith }
free_before-FreeAt [] (suc words) first h = cc
free_before-FreeAt (last ∷ occ) (suc words) first h =
    FreeAt-cons occ last words first (ground arith)
      (free_before-FreeAt occ words first (ground arith))

-- The slot that is found is free.
first_fit-FreeAt :
    (occ : List ℕ) (words first slot : ℕ)
    → first_fit occ words first ≡ some slot
    → FreeAt occ slot words first
unfolding first_fit
first_fit-FreeAt [] words first slot h = elim (Bool-cases (free_before [] words first)) [
  | inl e ↦
      let zero_slot : 0 ≡ slot = some_eq (rw e at h) in
      subst (λ n. FreeAt [] n words first) zero_slot (free_before-FreeAt [] words first e)
  | inr e ↦ let bad = rw e at h in cc
]
first_fit-FreeAt (o ∷ occ) words first slot h =
    elim (Bool-cases (free_before (o ∷ occ) words first)) [
      | inl e ↦
          let zero_slot : 0 ≡ slot = some_eq (rw e at h) in
          subst (λ n. FreeAt (o ∷ occ) n words first) zero_slot
            (free_before-FreeAt (o ∷ occ) words first e)
      | inr e ↦ elim (Option-cases (first_fit occ words first)) [
        | inl n ↦ let bad = rw (e, n) at h in cc
        | inr (start, f) ↦
            let next : suc start ≡ slot = some_eq (rw (e, f) at h) in
            subst (λ n. FreeAt (o ∷ occ) n words first) next
              (FreeAt-later occ o start words first (first_fit-FreeAt occ words first start f))
      ]
    ]

pub length-occupy :
    (occ : List ℕ) (slot words last : ℕ) → length (occupy occ slot words last) ≡ length occ
unfolding occupy
length-occupy [] slot words last = refl
length-occupy (o ∷ occ) zero zero last = refl
length-occupy (o ∷ occ) zero (suc words) last = ap suc (length-occupy occ zero words last)
length-occupy (o ∷ occ) (suc slot) words last = ap suc (length-occupy occ slot words last)

pub occupy_inside :
    (occ : List ℕ) (slot words last k : ℕ)
    → slot + words ≤ length occ
    → slot ≤ k
    → k < slot + words
    → get_or (occupy occ slot words last) k 0 ≡ last
unfolding occupy
occupy_inside [] slot words last k r p q = ground arith
occupy_inside (o ∷ occ) zero zero last k r p q = ground arith
occupy_inside (o ∷ occ) zero (suc words) last zero r p q = refl
occupy_inside (o ∷ occ) zero (suc words) last (suc k) r p q =
    occupy_inside occ zero words last k (omega arith) (omega arith) (omega arith)
occupy_inside (o ∷ occ) (suc slot) words last zero r p q = ground arith
occupy_inside (o ∷ occ) (suc slot) words last (suc k) r p q =
    occupy_inside occ slot words last k (omega arith) (omega arith) (omega arith)

pub occupy_outside :
    (occ : List ℕ) (slot words last k : ℕ)
    → (k < slot) ⊎ (slot + words ≤ k)
    → get_or (occupy occ slot words last) k 0 ≡ get_or occ k 0
unfolding occupy
occupy_outside [] slot words last k h = refl
occupy_outside (o ∷ occ) zero zero last k h = refl
occupy_outside (o ∷ occ) zero (suc words) last zero h = ground arith
occupy_outside (o ∷ occ) zero (suc words) last (suc k) h =
    occupy_outside occ zero words last k (ground arith)
occupy_outside (o ∷ occ) (suc slot) words last zero h = refl
occupy_outside (o ∷ occ) (suc slot) words last (suc k) h =
    occupy_outside occ slot words last k (ground arith)

get_or-append : (xs ys : List ℕ) (k : ℕ) → k < length xs → get_or (xs ++ ys) k 0 ≡ get_or xs k 0
get_or-append [] ys k h = ground arith
get_or-append (x ∷ xs) ys zero h = refl
get_or-append (x ∷ xs) ys (suc k) h = get_or-append xs ys k (omega arith)

-- A stretch of words is in use up to an instruction.
pub record Reserved (occ : List ℕ) (slot words last : ℕ) : Type 0 where
  pub room : slot + words ≤ length occ
  pub used : (k : ℕ) → slot ≤ k → k < slot + words → last ≤ get_or occ k 0

-- What the choice of a slot gives: room, and no stretch in use at `first` that it meets.
pub record Chosen (occ : List ℕ) (iv : Interval) (chosen : ℕ × List ℕ) : Type 0 where
  pub room : chosen.0 + iv.words ≤ length chosen.1
  pub longer : length occ ≤ length chosen.1
  pub same : (k : ℕ) → k < length occ → get_or chosen.1 k 0 ≡ get_or occ k 0
  pub free :
      (k : ℕ)
      → chosen.0 ≤ k
      → k < chosen.0 + iv.words
      → (get_or occ k 0 < iv.first) ⊎ (length occ ≤ k)

pub choose_slot-Chosen : (occ : List ℕ) (iv : Interval) → Chosen occ iv (choose_slot occ iv)
unfolding choose_slot
choose_slot-Chosen occ iv = elim (Option-cases (first_fit occ iv.words iv.first)) [
  | inl n ↦
      let both = length-append occ (replicate iv.words 0) in
      let zeros = length-replicate {A = ℕ} iv.words 0 in
      rw (n, choose_slot)
        (record {
          room = omega (arith, both, zeros);
          longer = omega (arith, both);
          same = λ k h. get_or-append occ (replicate iv.words 0) k h;
          free = λ k p q. inr p;
        })
  | inr (slot, e) ↦
      let f = first_fit-FreeAt occ iv.words iv.first slot e in
      rw (e, choose_slot)
        (record {
          room = f.room;
          longer = omega arith;
          same = λ k h. refl;
          free = λ k p q. inl (f.free k p q);
        })
]
