-- ===== src/Abi/Words/Align.antt =====
-- src/types/ObjectAbi.h: `alignUp` is the least aligned bound, and homes and frames are aligned.
use native.Mathlib.Nat.{mod-lt, mod-add-div', mul-mod_left, mod-one}
use trans.Prelude.{ℕ, ◌+◌, ◌*◌, ◌/◌, ◌%◌, ◌≤◌, ◌<◌, ◌≡◌, arith, ◌⊎◌, ◌==◌, if◌then◌else◌}
use trans.Abi.Words.{align_up, take_aligned_words, frame_layout, value_words}

-- The number of alignments in the result.
abbrev units : ℕ → ℕ → ℕ
units bytes align = if bytes % align == 0 then bytes / align else bytes / align + 1

align_up-units : (bytes align : ℕ) → 0 < align → align_up bytes align ≡ units bytes align * align
unfolding align_up
align_up-units bytes align h = grind (arith, mod-add-div' bytes align, mod-one)

pub align_up_bounds :
    (bytes align : ℕ)
    → 0 < align
    → (bytes ≤ align_up bytes align) × (align_up bytes align < bytes + align)
unfolding align_up
align_up_bounds bytes align h = grind (arith, mod-lt)

pub align_up-mod : (bytes align : ℕ) → 0 < align → align_up bytes align % align ≡ 0
align_up-mod bytes align h =
    rw (align_up-units bytes align h) (mul-mod_left (units bytes align) align)

lt_of_mul : (u k a : ℕ) → u * a < (k + 1) * a → u ≤ k
lt_of_mul u k a h = grind arith

mul_mono : (u k a : ℕ) → u ≤ k → u * a ≤ k * a
mul_mono u k a h = grind arith

least_of : (bytes align k : ℕ) → 0 < align → bytes ≤ k * align → align_up bytes align ≤ k * align
least_of bytes align k h le =
    let e = align_up-units bytes align h in
    let u = units bytes align in
    rw e (
      mul_mono u k align
        (lt_of_mul u k align (omega (arith, e, (align_up_bounds bytes align h).1))))

-- Among the multiples of a positive alignment, `align_up` is the least that is not below the
-- argument.
pub align_up_least :
    (bytes align k : ℕ)
    → 0 < align
    → (align_up bytes align % align ≡ 0)
      × (bytes ≤ align_up bytes align)
      × (bytes ≤ k * align → align_up bytes align ≤ k * align)
align_up_least bytes align k h =
    (align_up-mod bytes align h, (align_up_bounds bytes align h).0, least_of bytes align k h)

-- The home is the least 16-byte region that holds the words, and the pad aligns the call.
frame_aligned :
    (words saved : ℕ)
    → ((frame_layout words saved).home_bytes % 16 ≡ 0)
      × ((saved + (frame_layout words saved).sub_bytes) % 16 ≡ 0)
      × (words * 8 ≤ (frame_layout words saved).home_bytes)
      × ((frame_layout words saved).home_bytes ≤ (frame_layout words saved).sub_bytes)
      × ((frame_layout words saved).sub_bytes < words * 8 + 31)
unfolding frame_layout
frame_aligned words saved = ground arith

-- The alignments of the objects that the compiler lays out.
abbrev pub IsAlignment : ℕ → Type 0
IsAlignment a = (a ≡ 1) ⊎ (a ≡ 2) ⊎ (a ≡ 4) ⊎ (a ≡ 8) ⊎ (a ≡ 16)

-- For an alignment of 1, 2, 4, 8 or 16 bytes the word taken is aligned, is not before the cursor
-- and at most one word after it, and the cursor is moved past the words.
take_aligned :
    (next align words : ℕ)
    → IsAlignment align
    → ((take_aligned_words next align words).1 * 8 % align ≡ 0)
      × (next ≤ (take_aligned_words next align words).1)
      × ((take_aligned_words next align words).1 ≤ next + 1)
      × ((take_aligned_words next align words).0 ≡ (take_aligned_words next align words).1 + words)
unfolding take_aligned_words
take_aligned next align words h = ground arith

-- A value takes the least positive number of words that hold its bytes.
pub value_words_least :
    (size k : ℕ)
    → (0 < value_words size)
      × (size ≤ value_words size * 8)
      × (0 < k → size ≤ k * 8 → value_words size ≤ k)
unfolding value_words
value_words_least size k = ground arith
