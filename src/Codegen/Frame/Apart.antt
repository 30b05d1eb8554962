-- ===== src/Codegen/Frame/Apart.antt =====
-- src/codegen/FrameLayout.cpp: two values of a packed frame share a word only if the recorded range
-- of one ends before that of the other.
use trans.Prelude.{
  ℕ, ◌+◌, ◌≤◌, ◌<◌, ◌≡◌, sym, subst, List, [], ◌∷◌, get_or, All, arith, ◌⊎◌, ltb, if◌then◌else◌,
}
use trans.Abi.Words.{value_words}
use trans.Abi.Words.Align.{value_words_least}
use trans.Codegen.Frame.{
  Value, Ranges, live_range, Interval, occupy, choose_slot, placed_value, place_intervals,
}
use trans.Codegen.Frame.Slots.{
  Reserved, Chosen, choose_slot-Chosen, length-occupy, occupy_inside, occupy_outside,
}

-- A value does not meet a stretch of words that is in use up to an instruction.
abbrev pub Clear : Ranges → ℕ → ℕ → ℕ → Value → Type 0
Clear live slot words last v =
    (slot + words ≤ v.index)
    ⊎ ((v.index + value_words v.size_bytes ≤ slot) ⊎ (last < (live_range live v.id).0))

-- The words of two values do not meet, or the range of the first ends before the second's.
abbrev pub Apart : Ranges → Value → Value → Type 0
Apart live v w = Clear live v.index (value_words v.size_bytes) (live_range live v.id).1 w

-- Every value is apart from every value after it.
abbrev pub AllApart : Ranges → List Value → Type 0
AllApart live [] = Unit
AllApart live (v ∷ vs) = All (Apart live v) vs × AllApart live vs

-- The interval is that of its value.
pub record IsInterval (live : Ranges) (iv : Interval) : Type 0 where
  pub words : iv.words ≡ value_words iv.value.size_bytes
  pub first : (live_range live iv.value.id).0 ≡ iv.first
  pub last : (live_range live iv.value.id).1 ≡ iv.last
  pub ordered : iv.first ≤ iv.last

-- A stretch in use meets the slot chosen only where it is no longer in use at `first`.
Reserved-or :
    (occ : List ℕ) (slot words last : ℕ) (iv : Interval) (chosen : ℕ × List ℕ)
    → Reserved occ slot words last
    → Chosen occ iv chosen
    → 0 < words
    → 0 < iv.words
    → (slot + words ≤ chosen.0) ⊎ ((chosen.0 + iv.words ≤ slot) ⊎ (last < iv.first))
Reserved-or occ slot words last iv chosen r c pos pos' =
    let k = if ltb slot chosen.0 then chosen.0 else slot in
    let u = r.used k in let f = c.free k in let room = r.room in ground arith

Reserved-kept :
    (occ : List ℕ) (slot words last : ℕ) (iv : Interval) (chosen : ℕ × List ℕ)
    → iv.first ≤ iv.last
    → Reserved occ slot words last
    → Chosen occ iv chosen
    → Reserved (occupy chosen.1 chosen.0 iv.words iv.last) slot words last
Reserved-kept occ slot words last iv chosen o r c = record {
  room = omega (arith, r.room, c.longer, length-occupy chosen.1 chosen.0 iv.words iv.last);
  used = used;
}
  where
    used :
        (k : ℕ)
        → slot ≤ k
        → k < slot + words
        → last ≤ get_or (occupy chosen.1 chosen.0 iv.words iv.last) k 0
    used k p q =
        let old = r.used k p q in
        let room = r.room in
        let kept = c.same k (omega (arith, room)) in
        ground (
          arith,
          c.free k,
          occupy_inside chosen.1 chosen.0 iv.words iv.last k c.room,
          occupy_outside chosen.1 chosen.0 iv.words iv.last k,
        )

module _ (live : Ranges) where
  interval_words : (iv : Interval) → IsInterval live iv → 0 < iv.words
  interval_words iv i = rw i.words (value_words_least iv.value.size_bytes 0).0

  placed-Clear :
      (occ : List ℕ) (slot words last : ℕ) (iv : Interval)
      → IsInterval live iv
      → Reserved occ slot words last
      → 0 < words
      → Clear live slot words last (placed_value iv (choose_slot occ iv).0)
  placed-Clear occ slot words last iv i r pos =
      let c = choose_slot-Chosen occ iv in
      let e = i.words in
      let f = i.first in
      let three =
        Reserved-or occ slot words last iv (choose_slot occ iv) r c pos (interval_words iv i) in
      ground arith

  pub place-Clear :
      (occ : List ℕ) (slot words last : ℕ) (ivs : List Interval)
      → All (IsInterval live) ivs
      → Reserved occ slot words last
      → 0 < words
      → All (Clear live slot words last) (place_intervals occ ivs)
  unfolding place_intervals
  place-Clear occ slot words last [] h r pos = tt
  place-Clear occ slot words last (iv ∷ ivs) (i, h) r pos =
      let chosen = choose_slot occ iv in
      (
        placed-Clear occ slot words last iv i r pos,
        place-Clear (occupy chosen.1 chosen.0 iv.words iv.last) slot words last ivs h
            (Reserved-kept occ slot words last iv chosen i.ordered r (choose_slot-Chosen occ iv))
            pos,
      )

  occupied-Reserved :
      (occ : List ℕ) (iv : Interval)
      → Reserved
          (occupy (choose_slot occ iv).1 (choose_slot occ iv).0 iv.words iv.last)
          (choose_slot occ iv).0
          iv.words
          iv.last
  occupied-Reserved occ iv =
      let chosen = choose_slot occ iv in
      let c = choose_slot-Chosen occ iv in
      record {
        room = omega (arith, c.room, length-occupy chosen.1 chosen.0 iv.words iv.last);
        used =
            λ k p q. omega (arith, occupy_inside chosen.1 chosen.0 iv.words iv.last k c.room p q);
      }

  pub place-AllApart :
      (occ : List ℕ) (ivs : List Interval)
      → All (IsInterval live) ivs
      → AllApart live (place_intervals occ ivs)
  unfolding place_intervals
  place-AllApart occ [] h = tt
  place-AllApart occ (iv ∷ ivs) (i, h) =
      let chosen = choose_slot occ iv in
      let next = occupy chosen.1 chosen.0 iv.words iv.last in
      let clear =
        place-Clear next chosen.0 iv.words iv.last ivs h (occupied-Reserved occ iv)
          (interval_words iv i) in
      let placed = place_intervals next ivs in
      let sized = subst (λ n. All (Clear live chosen.0 n iv.last) placed) i.words clear in
      (
        subst (λ l. All (Clear live chosen.0 (value_words iv.value.size_bytes) l) placed)
            (sym i.last) sized,
        place-AllApart next ivs h,
      )
