-- ===== src/Codegen/Liveness/Sets.antt =====
-- src/codegen/Liveness.cpp: sets of small numbers, by the bits of their words.
use trans.Prelude.{
  ℕ, zero, suc, ◌+◌, ◌*◌, ◌/◌, ◌≤◌, ◌<◌, ◌≡◌, refl, ap, Bool, true, false, not, Option, none, some,
  List, [], ◌∷◌, if◌then◌else◌, ◌&&◌, ◌||◌, length, get_or, set, replicate, arith,
}

abbrev pub Bits : Type 0
Bits = List Bool

abbrev pub empty_bits : ℕ → Bits
empty_bits width = replicate ((width + 63) / 64 * 64) false

-- An id that has no number, -1, is out of range.
unfoldable pub set_bit : Bits → Option ℕ → Bits
set_bit bits none = bits
set_bit bits (some id) = set bits id true

unfoldable pub clear_bit : Bits → Option ℕ → Bits
clear_bit bits none = bits
clear_bit bits (some id) = set bits id false

abbrev pub has_bit : Bits → ℕ → Bool
has_bit bits id = get_or bits id false

unfoldable pub test_bit : Bits → Option ℕ → Bool
test_bit bits none = false
test_bit bits (some id) = has_bit bits id

-- The words of `|=`, as many as the first has.
abbrev pub or_bits : Bits → Bits → Bits
or_bits [] cs = []
or_bits (b ∷ bs) [] = b ∷ bs
or_bits (b ∷ bs) (c ∷ cs) = (b || c) ∷ or_bits bs cs

-- `gen | (out & ~kill)`.
abbrev pub gen_or_kept : Bits → Bits → Bits → Bits
gen_or_kept (g ∷ gs) (o ∷ os) (k ∷ ks) = (g || (o && not k)) ∷ gen_or_kept gs os ks
gen_or_kept _ _ _ = []

abbrev pub same_bits : Bits → Bits → Bool
same_bits [] [] = true
same_bits (b ∷ bs) (c ∷ cs) = (if b then c else not c) && same_bits bs cs
same_bits _ _ = false

pub same_bits-eq : (bs cs : Bits) → same_bits bs cs ≡ true → bs ≡ cs
same_bits-eq [] [] e = refl
same_bits-eq [] (c ∷ cs) e = cc
same_bits-eq (b ∷ bs) [] e = cc
same_bits-eq (b ∷ bs) (c ∷ cs) e = ground (arith, same_bits-eq bs cs)

pub length-or_bits : (bs cs : Bits) → length (or_bits bs cs) ≡ length bs
length-or_bits [] cs = refl
length-or_bits (b ∷ bs) [] = refl
length-or_bits (b ∷ bs) (c ∷ cs) = ap suc (length-or_bits bs cs)

pub has_bit-or_bits :
    (bs cs : Bits) (d : ℕ)
    → length bs ≡ length cs
    → has_bit (or_bits bs cs) d ≡ (has_bit bs d || has_bit cs d)
has_bit-or_bits [] [] d e = refl
has_bit-or_bits [] (c ∷ cs) d e = absurd (omega arith)
has_bit-or_bits (b ∷ bs) [] d e = absurd (omega arith)
has_bit-or_bits (b ∷ bs) (c ∷ cs) zero e = refl
has_bit-or_bits (b ∷ bs) (c ∷ cs) (suc d) e = has_bit-or_bits bs cs d (omega arith)

pub has_bit-gen_or_kept :
    (gs os ks : Bits) (d : ℕ)
    → length gs ≡ length os
    → length ks ≡ length os
    → has_bit (gen_or_kept gs os ks) d ≡ (has_bit gs d || (has_bit os d && not (has_bit ks d)))
has_bit-gen_or_kept [] [] [] d e f = refl
has_bit-gen_or_kept (g ∷ gs) (o ∷ os) (k ∷ ks) zero e f = refl
has_bit-gen_or_kept (g ∷ gs) (o ∷ os) (k ∷ ks) (suc d) e f =
    has_bit-gen_or_kept gs os ks d (omega arith) (omega arith)
has_bit-gen_or_kept gs os ks d e f = ground arith

pub length-gen_or_kept :
    (gs os ks : Bits)
    → length gs ≡ length os
    → length ks ≡ length os
    → length (gen_or_kept gs os ks) ≡ length os
length-gen_or_kept [] [] [] e f = refl
length-gen_or_kept (g ∷ gs) (o ∷ os) (k ∷ ks) e f =
    ap suc (length-gen_or_kept gs os ks (omega arith) (omega arith))
length-gen_or_kept gs os ks e f = ground arith

-- The number of the members.
abbrev pub count : Bits → ℕ
count [] = 0
count (b ∷ bs) = (if b then 1 else 0) + count bs

pub count-le-length : (bs : Bits) → count bs ≤ length bs
count-le-length [] = omega arith
count-le-length (b ∷ bs) = ground (arith, count-le-length bs)

abbrev pub Subset : Bits → Bits → Type 0
Subset bs cs = (d : ℕ) → has_bit bs d ≡ true → has_bit cs d ≡ true

-- A larger set of the same width has at least as many members, and more if it is not the same.
pub count_subset :
    (bs cs : Bits)
    → length bs ≡ length cs
    → Subset bs cs
    → (count bs ≤ count cs) × (same_bits cs bs ≡ false → count bs < count cs)
count_subset [] [] e s = ground arith
count_subset [] (c ∷ cs) e s = absurd (omega arith)
count_subset (b ∷ bs) [] e s = absurd (omega arith)
count_subset (b ∷ bs) (c ∷ cs) e s =
    let r = count_subset bs cs (omega arith) (λ d. s (suc d)) in
    let z : b ≡ true → c ≡ true = s zero in ground arith
