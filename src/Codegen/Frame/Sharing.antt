-- ===== src/Codegen/Frame/Sharing.antt =====
-- src/codegen/FrameLayout.cpp: no two values of a packed frame are in each other's way.
use trans.Prelude.{
  ℕ, ◌+◌, ◌≤◌, ◌≡◌, List, [], ◌∷◌, ◌++◌, length, replicate, All, arith, Bool-cases, inl, inr,
}
use trans.Abi.Words.{value_words}
use trans.Abi.Words.Align.{value_words_least}
use trans.Codegen.Instruction.{Instruction}
use trans.Codegen.Frame.{
  Value, Scan, Interval, is_pinned, pinned_home, pin_values, pinned_last, place_intervals,
  intervals, sort, scan_body, pack_frame_values,
}
use trans.Codegen.Frame.Live.{scan_body-Ordered, Ordered-more}
use trans.Codegen.Frame.Apart.{Clear, place-Clear, place-AllApart}
use trans.Codegen.Frame.Whole.{
  IsTimely, IsFree, intervals-IsTimely, sort-All, pinned-Reserved, All-zip, place-IsFree,
  timely_intervals, temps-AllCompatible, Outside-pinned, Compatible, AllCompatible,
}

-- The words of the value lie between two words.
abbrev Between : ℕ → ℕ → Value → Type 0
Between from total v = (from ≤ v.index) × (v.index + value_words v.size_bytes ≤ total)

record Pinned (s : Scan) (from : ℕ) (out : List Value × ℕ) : Type 0 where
  longer : from ≤ out.1
  within : All (Between from out.1) out.0
  pairs : AllCompatible s out.0

All-mono :
    (P Q : Value → Type 0) → ((v : Value) → P v → Q v) → (vs : List Value) → All P vs → All Q vs
All-mono P Q k [] h = tt
All-mono P Q k (v ∷ vs) (h, hs) = (k v h, All-mono P Q k vs hs)

home_size : (s : Scan) (v : Value) (n : ℕ) → (pinned_home s v n).size_bytes ≡ v.size_bytes
home_size s v n = ground arith

home_index : (s : Scan) (v : Value) (n : ℕ) → (pinned_home s v n).index ≡ n
home_index s v n = ground arith

after_home :
    (s : Scan) (v w : Value) (from total : ℕ)
    → Between (from + value_words v.size_bytes) total w
    → Compatible s (pinned_home s v from) w
after_home s v w from total b =
    let size = home_size s v from in
    let index = home_index s v from in inl (inl (rw (size, index) b.0))

pin_values-Pinned : (s : Scan) (vs : List Value) (from : ℕ) → Pinned s from (pin_values s vs from)
unfolding pin_values
pin_values-Pinned s [] from = record { longer = omega arith; within = tt; pairs = tt }
pin_values-Pinned s (v ∷ vs) from = elim (Bool-cases (is_pinned s v)) [
  | inr e ↦ rw e (pin_values-Pinned s vs from)
  | inl e ↦
      let next = from + value_words v.size_bytes in
      let p = pin_values-Pinned s vs next in
      let rest = pin_values s vs next in
      let longer = p.longer in
      rw e (record {
        longer = omega (arith, longer);
        within = (
          (
            rw (home_index s v from) (omega arith),
            rw (home_index s v from, home_size s v from) longer,
          ),
          All-mono (Between next rest.1) (Between from rest.1) (λ w b. (omega (arith, b), b.1))
              rest.0 p.within,
        );
        pairs = (
          All-mono (Between next rest.1) (Compatible s (pinned_home s v from))
              (λ w b. after_home s v w from rest.1 b) rest.0 p.within,
          p.pairs,
        );
      })
]

-- A pinned value and the values of the intervals.
pinned_temps :
    (s : Scan) (from total : ℕ) (vs : List Value) (ivs : List Interval)
    → All (IsTimely s) ivs
    → All (Between from total) vs
    → All (λ v. All (Compatible s v) (place_intervals (replicate total pinned_last) ivs)) vs
pinned_temps s from total [] ivs h b = tt
pinned_temps s from total (v ∷ vs) ivs h (b, bs) =
    let occ = replicate total pinned_last in
    let clear =
      place-Clear s.live occ v.index (value_words v.size_bytes) pinned_last ivs
        (timely_intervals s ivs h) (pinned-Reserved v.index (value_words v.size_bytes) total b.1)
        (value_words_least v.size_bytes 0).0 in
    (
      All-zip (Clear s.live v.index (value_words v.size_bytes) pinned_last) (IsFree s)
          (Compatible s v)
          (λ w c f. inl (Outside-pinned s v.index (value_words v.size_bytes) w c f))
          (place_intervals occ ivs) clear (place-IsFree s occ ivs h),
      pinned_temps s from total vs ivs h bs,
    )

All-both : (P : Value → Type 0) (xs ys : List Value) → All P xs → All P ys → All P (xs ++ ys)
All-both P [] ys p q = q
All-both P (x ∷ xs) ys (h, p) q = (h, All-both P xs ys p q)

AllCompatible-append :
    (s : Scan) (xs ys : List Value)
    → AllCompatible s xs
    → AllCompatible s ys
    → All (λ v. All (Compatible s v) ys) xs
    → AllCompatible s (xs ++ ys)
AllCompatible-append s [] ys p q h = q
AllCompatible-append s (x ∷ xs) ys (p, ps) q (h, hs) =
    (All-both (Compatible s x) xs ys p h, AllCompatible-append s xs ys ps q hs)

-- In the frame of a body that has at most as many instructions as the largest `int`, the words of two
-- values do not meet, or neither is pinned and the recorded range of the first ends before that of the
-- second.
pub pack_frame_values-AllCompatible :
    (locals : List Value) (body : List Instruction)
    → length body ≤ pinned_last
    → AllCompatible (scan_body body) (pack_frame_values locals body)
unfolding pack_frame_values
pack_frame_values-AllCompatible locals body h =
    let s = scan_body body in
    let ivs = sort (intervals s locals) in
    let pinned = pin_values s locals 0 in
    let p = pin_values-Pinned s locals 0 in
    let occ = replicate pinned.1 pinned_last in
    let timely = sort-All (IsTimely s) (intervals s locals) (
      intervals-IsTimely s locals
        (Ordered-more (length body) pinned_last s.live h (scan_body-Ordered body))) in
    AllCompatible-append s pinned.0 (place_intervals occ ivs) p.pairs
      (temps-AllCompatible s (place_intervals occ ivs)
        (place-AllApart s.live occ ivs (timely_intervals s ivs timely))
        (place-IsFree s occ ivs timely))
      (pinned_temps s 0 pinned.1 pinned.0 ivs timely p.within)
