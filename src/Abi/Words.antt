-- ===== src/Abi/Words.antt =====
-- src/types/ObjectAbi.h: words, alignment and the frame of a procedure, in bytes. An `int` that
-- counts bytes is a number here: the callers pass sizes, which are not negative.
pub mod Align
use trans.Prelude.{ℕ, ◌+◌, ◌-◌, ◌*◌, ◌/◌, ◌%◌, leb, ◌==◌, ◌||◌, if◌then◌else◌}

abbrev pub machine_word_size : ℕ
machine_word_size = 8

abbrev pub stack_alignment : ℕ
stack_alignment = 2 * machine_word_size

abbrev pub register_return_max_bytes : ℕ
register_return_max_bytes = 2 * machine_word_size

unfoldable pub value_words : ℕ → ℕ
value_words size = if leb size 0 then 1 else (size + machine_word_size - 1) / machine_word_size

unfoldable pub data_words : ℕ → ℕ
data_words size = if leb size 0 then 0 else (size + machine_word_size - 1) / machine_word_size

unfoldable pub align_up : ℕ → ℕ → ℕ
align_up bytes align =
    if leb align 1 || leb bytes 0
    then bytes
    else (let rem = bytes % align in if rem == 0 then bytes else bytes + (align - rem))

unfoldable pub align_word_index : ℕ → ℕ → ℕ
unfolding align_up
align_word_index index align = align_up (index * machine_word_size) align / machine_word_size

-- The cursor after the call, and the word taken.
unfoldable pub take_aligned_words : ℕ → ℕ → ℕ → ℕ × ℕ
unfolding align_word_index
take_aligned_words next align words =
    let index = align_word_index next align in (index + words, index)

pub record FrameLayout : Type 0 where
  pub home_bytes : ℕ
  pub sub_bytes : ℕ

unfoldable pub frame_layout : ℕ → ℕ → FrameLayout
unfolding align_up
frame_layout words callee_saved =
    let home = align_up (words * machine_word_size) stack_alignment in
    record {
      home_bytes = home;
      sub_bytes = align_up (callee_saved + home) stack_alignment - callee_saved;
    }

unfoldable pub word_index_at : ℕ → ℕ
word_index_at offset = offset / machine_word_size
