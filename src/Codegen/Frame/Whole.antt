-- ===== src/Codegen/Frame/Whole.antt =====
-- src/codegen/FrameLayout.cpp: what is known of the intervals, and of the words that are pinned.
use trans.Prelude.{
  ℕ, zero, suc, ◌+◌, ◌≤◌, ◌<◌, ◌≡◌, refl, false, List, [], ◌∷◌, ◌++◌, length-replicate, get_or,
  replicate, All, arith, Bool-cases, Option-cases, inl, inr, ◌⊎◌, if◌then◌else◌,
}
use trans.Abi.Words.{value_words}
use trans.Codegen.Frame.{
  Value, live_range, Interval, occupy, choose_slot, place_intervals, pinned_last, Scan, is_pinned,
  interval_of, intervals, insert_sorted, sort, before, find,
}
use trans.Codegen.Frame.Slots.{Reserved}
use trans.Codegen.Frame.Live.{Ordered, find-Ordered}
use trans.Codegen.Frame.Apart.{IsInterval, Apart, AllApart, Clear}

-- The interval is one of a value that is not pinned, and begins before the last instruction number.
abbrev pub IsTimely : Scan → Interval → Type 0
IsTimely s iv = IsInterval s.live iv × (iv.first < pinned_last) × (is_pinned s iv.value ≡ false)

All-append :
    (P : Interval → Type 0) (xs ys : List Interval) → All P xs → All P ys → All P (xs ++ ys)
All-append P [] ys p q = q
All-append P (x ∷ xs) ys (h, p) q = (h, All-append P xs ys p q)

interval_of-IsTimely :
    (s : Scan) (v : Value)
    → Ordered pinned_last s.live
    → is_pinned s v ≡ false
    → All (IsTimely s) (interval_of v (find s.live v.id))
unfolding live_range
interval_of-IsTimely s v h free = elim (Option-cases (find s.live v.id)) [
  | inl n ↦ rw n tt
  | inr ((first, last), e) ↦
      let (o, b) = find-Ordered pinned_last s.live v.id first last h e in
      rw e (
        (
          record {
            words = refl;
            first = rw (e, live_range) refl;
            last = rw (e, live_range) refl;
            ordered = o;
          },
          omega (arith, o, b),
          free,
        ),
        tt,
      )
]

pub intervals-IsTimely :
    (s : Scan) (vs : List Value) → Ordered pinned_last s.live → All (IsTimely s) (intervals s vs)
unfolding intervals
intervals-IsTimely s [] h = tt
intervals-IsTimely s (v ∷ vs) h = All-append (IsTimely s) _ _ first (intervals-IsTimely s vs h)
  where
    first : All (IsTimely s) (if is_pinned s v then [] else interval_of v (find s.live v.id))
    first = elim (Bool-cases (is_pinned s v)) [
      | inl e ↦ rw e tt
      | inr e ↦ rw e (interval_of-IsTimely s v h e)
    ]

module _ (P : Interval → Type 0) where
  insert-All : (a : Interval) (bs : List Interval) → P a → All P bs → All P (insert_sorted a bs)
  unfolding insert_sorted
  insert-All a [] p h = (p, tt)
  insert-All a (b ∷ bs) p (q, h) = elim (Bool-cases (before b a)) [
    | inl e ↦ rw e (q, insert-All a bs p h)
    | inr e ↦ rw e (p, (q, h))
  ]

  pub sort-All : (as' : List Interval) → All P as' → All P (sort as')
  unfolding sort
  sort-All [] h = tt
  sort-All (a ∷ as') (p, h) = insert-All a (sort as') p (sort-All as' h)

-- The pinned words stay in use.
pub pinned-Reserved :
    (slot words total : ℕ)
    → slot + words ≤ total
    → Reserved (replicate total pinned_last) slot words pinned_last
pinned-Reserved slot words total h = record {
  room = omega (arith, length-replicate {A = ℕ} total pinned_last);
  used = λ k p q. rw (replicated total k (omega arith)) (omega arith);
}
  where
    replicated : (n k : ℕ) → k < n → get_or (replicate n pinned_last) k 0 ≡ pinned_last
    replicated zero k q = ground arith
    replicated (suc n) zero q = refl
    replicated (suc n) (suc k) q = replicated n k (omega arith)

-- The words of a value do not meet a stretch.
abbrev pub Outside : ℕ → ℕ → Value → Type 0
Outside slot words v = (slot + words ≤ v.index) ⊎ (v.index + value_words v.size_bytes ≤ slot)

-- The words of two values do not meet, or neither is pinned and the recorded range of the first
-- ends before that of the second.
abbrev pub Compatible : Scan → Value → Value → Type 0
Compatible s v w =
    Outside v.index (value_words v.size_bytes) w
    ⊎ ((is_pinned s v ≡ false)
        × (is_pinned s w ≡ false)
        × ((live_range s.live v.id).1 < (live_range s.live w.id).0))

abbrev pub AllCompatible : Scan → List Value → Type 0
AllCompatible s [] = Unit
AllCompatible s (v ∷ vs) = All (Compatible s v) vs × AllCompatible s vs

-- What is known of the values of intervals.
abbrev pub IsFree : Scan → Value → Type 0
IsFree s w = ((live_range s.live w.id).0 < pinned_last) × (is_pinned s w ≡ false)

pub All-zip :
    (P Q R : Value → Type 0)
    → ((v : Value) → P v → Q v → R v)
    → (vs : List Value) → All P vs
    → All Q vs
    → All R vs
All-zip P Q R k [] p q = tt
All-zip P Q R k (v ∷ vs) (p, ps) (q, qs) = (k v p q, All-zip P Q R k vs ps qs)

pub place-IsFree :
    (s : Scan) (occ : List ℕ) (ivs : List Interval)
    → All (IsTimely s) ivs
    → All (IsFree s) (place_intervals occ ivs)
unfolding place_intervals
place-IsFree s occ [] h = tt
place-IsFree s occ (iv ∷ ivs) ((i, b, free), h) = (
  (rw i.first b, free),
  place-IsFree s (occupy (choose_slot occ iv).1 (choose_slot occ iv).0 iv.words iv.last) ivs h,
)

pub timely_intervals :
    (s : Scan) (ivs : List Interval) → All (IsTimely s) ivs → All (IsInterval s.live) ivs
timely_intervals s [] h = tt
timely_intervals s (iv ∷ ivs) (i, h) = (i.0, timely_intervals s ivs h)

free-Compatible :
    (s : Scan) (v w : Value)
    → is_pinned s v ≡ false
    → Apart s.live v w
    → IsFree s w
    → Compatible s v w
free-Compatible s v w h a f = ground arith

pub temps-AllCompatible :
    (s : Scan) (vs : List Value) → AllApart s.live vs → All (IsFree s) vs → AllCompatible s vs
temps-AllCompatible s [] a f = tt
temps-AllCompatible s (v ∷ vs) (a, as') (f, fs) = (
  All-zip (Apart s.live v) (IsFree s) (Compatible s v) (λ w. free-Compatible s v w f.1) vs a fs,
  temps-AllCompatible s vs as' fs,
)

pub Outside-pinned :
    (s : Scan) (slot words : ℕ) (w : Value)
    → Clear s.live slot words pinned_last w
    → IsFree s w
    → Outside slot words w
Outside-pinned s slot words w c f = ground arith
