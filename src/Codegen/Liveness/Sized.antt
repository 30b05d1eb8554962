-- ===== src/Codegen/Liveness/Sized.antt =====
-- src/codegen/Liveness.cpp: every set of the solution has the width of the procedure, and a union has the
-- members of its parts.
use trans.Prelude.{
  ℕ, ◌<◌, ◌≡◌, refl, sym, ◌∙◌, ◌⊎◌, inl, inr, true, false, List, [], ◌∷◌, length, get_or, set, All,
  arith, if◌then◌else◌, ◌==◌, length-set, get_or-set-same, get_or-set-other, Bool-cases, ==_iff,
}
use trans.Codegen.Cfg.Visits.{Below}
use trans.Codegen.Liveness.Sets.{
  Bits, empty_bits, or_bits, has_bit, length-or_bits, has_bit-or_bits,
}
use trans.Codegen.Liveness.{BlockSets, LiveBits, no_sets, union_in}

abbrev pub bits_at : List Bits → ℕ → Bits
bits_at sets i = get_or sets i []

abbrev pub sets_at : List BlockSets → ℕ → BlockSets
sets_at sets i = get_or sets i no_sets

abbrev pub width_of : ℕ → ℕ
width_of width = length (empty_bits width)

-- `n` sets of one width.
pub record IsSized (n width : ℕ) (sets : List Bits) : Type 0 where
  pub many : length sets ≡ n
  pub wide : (i : ℕ) → i < n → length (bits_at sets i) ≡ width

pub record AreSized (n width : ℕ) (sets : List BlockSets) : Type 0 where
  pub gens : (i : ℕ) → i < n → length (sets_at sets i).gen ≡ width
  pub kills : (i : ℕ) → i < n → length (sets_at sets i).kill ≡ width

pub record LiveSized (n width : ℕ) (live : LiveBits) : Type 0 where
  pub ins : IsSized n width live.live_in
  pub outs : IsSized n width live.live_out

true-ne-false : true ≡ false → ⊥
true-ne-false e = cc

pub bits_at-set :
    (sets : List Bits) (i j : ℕ) (v : Bits)
    → i < length sets
    → bits_at (set sets i v) j ≡ (if i == j then v else bits_at sets j)
bits_at-set sets i j v h = elim (Bool-cases (i == j)) [
  | inl e ↦ let k : i ≡ j = (==_iff i j).0 e in rw (e, sym k) (get_or-set-same sets i v [] h)
  | inr e ↦ rw e (get_or-set-other sets i j v [] (λ k. true-ne-false (sym ((==_iff i j).1 k) ∙ e)))
]

pub set-IsSized :
    (n width i : ℕ) (sets : List Bits) (v : Bits)
    → IsSized n width sets
    → i < n
    → length v ≡ width
    → IsSized n width (set sets i v)
set-IsSized n width i sets v s h e = record {
  many = length-set sets i v ∙ s.many;
  wide = λ j k. let m = s.many in ground (arith, bits_at-set sets i j v (omega arith), s.wide j k);
}

-- A set of a list, by number, has a member.
abbrev pub SomeHas : List Bits → ℕ → List ℕ → Type 0
SomeHas sets d [] = ⊥
SomeHas sets d (s ∷ rest) = (has_bit (bits_at sets s) d ≡ true) ⊎ SomeHas sets d rest

pub length-union_in :
    (n width : ℕ) (sets : List Bits) (b : Bits) (ss : List ℕ)
    → length b ≡ width
    → length (union_in b sets ss) ≡ width
length-union_in n width sets b [] e = e
length-union_in n width sets b (s ∷ rest) e =
    length-union_in n width sets (or_bits b (bits_at sets s)) rest
      (length-or_bits b (bits_at sets s) ∙ e)

pub union_in-member :
    (n width : ℕ) (sets : List Bits) (b : Bits) (ss : List ℕ) (d : ℕ)
    → IsSized n width sets
    → All (Below n) ss
    → length b ≡ width
    → has_bit (union_in b sets ss) d ≡ true
    → (has_bit b d ≡ true) ⊎ SomeHas sets d ss
union_in-member n width sets b [] d z h e m = inl m
union_in-member n width sets b (s ∷ rest) d z h e m =
    let c = bits_at sets s in
    let w = z.wide s h.0 in
    let o = has_bit-or_bits b c d (e ∙ sym w) in
    let l = length-or_bits b c ∙ e in
    elim (union_in-member n width sets (or_bits b c) rest d z h.1 l m) [
      | inl x ↦ ground arith
      | inr x ↦ inr (inr x)
    ]

pub union_in-keeps :
    (n width : ℕ) (sets : List Bits) (b : Bits) (ss : List ℕ) (d : ℕ)
    → IsSized n width sets
    → All (Below n) ss
    → length b ≡ width
    → has_bit b d ≡ true
    → has_bit (union_in b sets ss) d ≡ true
union_in-keeps n width sets b [] d z h e m = m
union_in-keeps n width sets b (s ∷ rest) d z h e m =
    let c = bits_at sets s in
    let o = has_bit-or_bits b c d (e ∙ sym (z.wide s h.0)) in
    union_in-keeps n width sets (or_bits b c) rest d z h.1 (length-or_bits b c ∙ e) (rw (o, m) refl)

pub union_in-has :
    (n width : ℕ) (sets : List Bits) (b : Bits) (ss : List ℕ) (d : ℕ)
    → IsSized n width sets
    → All (Below n) ss
    → length b ≡ width
    → SomeHas sets d ss
    → has_bit (union_in b sets ss) d ≡ true
union_in-has n width sets b [] d z h e m = absurd m
union_in-has n width sets b (s ∷ rest) d z h e (inl m) =
    let c = bits_at sets s in
    let o = has_bit-or_bits b c d (e ∙ sym (z.wide s h.0)) in
    union_in-keeps n width sets (or_bits b c) rest d z h.1 (length-or_bits b c ∙ e)
      (o ∙ ground arith)
union_in-has n width sets b (s ∷ rest) d z h e (inr m) =
    let c = bits_at sets s in
    union_in-has n width sets (or_bits b c) rest d z h.1 (length-or_bits b c ∙ e) m
