-- ===== src/Codegen/Frame/Reuse.antt =====
-- src/codegen/FrameLayout.cpp: which values of a packed frame share words, told from the body alone.
use trans.Prelude.{
  ℕ, ◌≤◌, ◌≡◌, sym, ◌∙◌, Bool, true, false, not, ◌||◌, List, [], ◌∷◌, length, All, arith, inl, inr,
  ◌⊎◌,
}
use trans.Abi.Words.{value_words}
use trans.Codegen.Instruction.{Instruction}
use trans.Codegen.Frame.{
  Value, Ranges, live_range, scan_body, is_pinned, pinned_last, pack_frame_values,
}
use trans.Codegen.Frame.Live.{Within}
use trans.Codegen.Frame.Whole.{Outside, Compatible, AllCompatible}
use trans.Codegen.Frame.Sharing.{pack_frame_values-AllCompatible}
use trans.Codegen.Frame.Mentions.{Mentions, Mentions-Within, takes_address, scan_body-taken}

-- The value is a temporary whose address no instruction of the body takes.
abbrev pub IsShareable : List Instruction → Value → Type 0
IsShareable body v = (v.expression_temp ≡ true) × (takes_address body v.id ≡ false)

-- An instruction that mentions the second value stands before or is one that mentions the first.
pub record Overlaps (body : List Instruction) (a b : ℕ) : Type 0 where
  pub late : ℕ
  pub early : ℕ
  pub of_first : Mentions body a late
  pub of_second : Mentions body b early
  pub order : early ≤ late

-- The words of two values do not meet, or both may share and the first is done with before the second.
abbrev pub Separate : List Instruction → Value → Value → Type 0
Separate body v w =
    Outside v.index (value_words v.size_bytes) w
    ⊎ (IsShareable body v × IsShareable body w × (¬ Overlaps body v.id w.id))

abbrev pub AllSeparate : List Instruction → List Value → Type 0
AllSeparate body [] = Unit
AllSeparate body (v ∷ vs) = All (Separate body v) vs × AllSeparate body vs

unpinned : (temp taken : Bool) → (not temp || taken) ≡ false → (temp ≡ true) × (taken ≡ false)
unpinned temp taken h = ground arith

free-IsShareable :
    (body : List Instruction) (v : Value)
    → is_pinned (scan_body body) v ≡ false
    → IsShareable body v
free-IsShareable body v h = let p = unpinned _ _ h in (p.0, sym (scan_body-taken body v.id) ∙ p.1)

Within-live_range :
    (live : Ranges) (id k : ℕ)
    → Within live id k
    → ((live_range live id).0 ≤ k) × (k ≤ (live_range live id).1)
unfolding live_range
Within-live_range live id k w = rw (live_range, w.found) (w.from, w.to)

Compatible-Separate :
    (body : List Instruction) (v w : Value) → Compatible (scan_body body) v w → Separate body v w
Compatible-Separate body v w (inl o) = inl o
Compatible-Separate body v w (inr (p, q, h)) = inr (
  free-IsShareable body v p,
  free-IsShareable body w q,
  λ x.
      let live = (scan_body body).live in
      let from = Within-live_range live v.id x.late (Mentions-Within body v.id x.late x.of_first) in
      let to =
        Within-live_range live w.id x.early (Mentions-Within body w.id x.early x.of_second) in
      omega (arith, h, from.1, to.0, x.order),
)

All-Separate :
    (body : List Instruction) (v : Value) (vs : List Value)
    → All (Compatible (scan_body body) v) vs
    → All (Separate body v) vs
All-Separate body v [] h = tt
All-Separate body v (w ∷ vs) (h, hs) = (Compatible-Separate body v w h, All-Separate body v vs hs)

AllCompatible-AllSeparate :
    (body : List Instruction) (vs : List Value)
    → AllCompatible (scan_body body) vs
    → AllSeparate body vs
AllCompatible-AllSeparate body [] h = tt
AllCompatible-AllSeparate body (v ∷ vs) (h, hs) =
    (All-Separate body v vs h, AllCompatible-AllSeparate body vs hs)

-- In the frame of a body that has at most as many instructions as the largest `int`, the words of two
-- values do not meet, or both are temporaries whose address no instruction takes, and every
-- instruction that uses or defines the first, or is a call that it is passed to, stands in the body
-- before every such instruction of the second. Jumps are not followed.
pub pack_frame_values-AllSeparate :
    (locals : List Value) (body : List Instruction)
    → length body ≤ pinned_last
    → AllSeparate body (pack_frame_values locals body)
pack_frame_values-AllSeparate locals body h =
    AllCompatible-AllSeparate body (pack_frame_values locals body)
      (pack_frame_values-AllCompatible locals body h)
