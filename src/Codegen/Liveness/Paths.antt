-- ===== src/Codegen/Liveness/Paths.antt =====
-- src/codegen/Liveness.cpp: the bits of the solution against the paths from a block to a use.
use trans.Prelude.{
  ℕ, ◌<◌, ◌≡◌, refl, sym, ap, subst, ◌∙◌, ◌⊎◌, inl, inr, Bool, true, false, not, List, [], ◌∷◌,
  length, All, arith, ◌||◌, ◌&&◌, ◌==◌, Bool-cases,
}
use trans.Codegen.Cfg.{Cfg, cfg_successors}
use trans.Codegen.Cfg.Visits.{Below}
use trans.Codegen.Cfg.Search.{cfg_successors-Below}
use trans.Codegen.Liveness.Sets.{Bits, has_bit}
use trans.Codegen.Liveness.{BlockSets, LiveBits}
use trans.Codegen.Liveness.Sized.{
  bits_at, sets_at, width_of, AreSized, LiveSized, SomeHas, bits_at-set,
}
use trans.Codegen.Liveness.Fixed.{
  out_at, in_at, length-out_at, has_bit-new_in, out_at-member, out_at-has, stored, Equations,
}

abbrev pub IsIn : ℕ → List ℕ → Type 0
IsIn s [] = ⊥
IsIn s (t ∷ rest) = (s ≡ t) ⊎ IsIn s rest

-- A path from the start of a block to a use of a value, on which no block before the use's kills it.
pub data Needed (cfg : Cfg) (sets : List BlockSets) (d : ℕ) : ℕ → Type 0 where
  used : {i : ℕ} → i < length cfg → has_bit (sets_at sets i).gen d ≡ true → Needed cfg sets d i
  passed :
      {i s : ℕ}
      → i < length cfg
      → IsIn s (cfg_successors cfg i)
      → has_bit (sets_at sets i).kill d ≡ false
      → Needed cfg sets d s
      → Needed cfg sets d i

abbrev pub NeededAfter : Cfg → List BlockSets → ℕ → ℕ → Type 0
NeededAfter cfg sets d i = (s : ℕ) × IsIn s (cfg_successors cfg i) × Needed cfg sets d s

-- Every bit stands for a path.
pub record IsJustified (cfg : Cfg) (sets : List BlockSets) (live : LiveBits) : Type 0 where
  pub ins :
      (i d : ℕ) → i < length cfg → has_bit (bits_at live.live_in i) d ≡ true → Needed cfg sets d i
  pub outs :
      (i d : ℕ)
      → i < length cfg
      → has_bit (bits_at live.live_out i) d ≡ true
      → NeededAfter cfg sets d i

some-Needed :
    (cfg : Cfg) (sets : List BlockSets) (live : LiveBits) (d : ℕ) (ss : List ℕ)
    → IsJustified cfg sets live
    → All (Below (length cfg)) ss
    → SomeHas live.live_in d ss
    → (s : ℕ) × IsIn s ss × Needed cfg sets d s
some-Needed cfg sets live d [] j b h = absurd h
some-Needed cfg sets live d (s ∷ rest) j b (inl h) = (s, inl refl, j.ins s d b.0 h)
some-Needed cfg sets live d (s ∷ rest) j b (inr h) =
    let r = some-Needed cfg sets live d rest j b.1 h in (r.0, inr r.1, r.2)

has_some :
    (sets : List Bits) (d s : ℕ) (ss : List ℕ)
    → IsIn s ss
    → has_bit (bits_at sets s) d ≡ true
    → SomeHas sets d ss
has_some sets d s [] k h = absurd k
has_some sets d s (t ∷ rest) (inl e) h = inl (subst (λ x. has_bit (bits_at sets x) d ≡ true) e h)
has_some sets d s (t ∷ rest) (inr k) h = inr (has_some sets d s rest k h)

or_cases : (a b c : Bool) → (a || (b && not c)) ≡ true → (a ≡ true) ⊎ ((b ≡ true) × (c ≡ false))
or_cases a b c h = ground arith

passed_bits : (a b c : Bool) → b ≡ true → c ≡ false → (a || (b && not c)) ≡ true
passed_bits a b c p q = ground arith

same_number : (i j : ℕ) → (i == j) ≡ true → i ≡ j
same_number i j e = ground arith

module _ (cfg : Cfg) (sets : List BlockSets) (width : ℕ)
    (sized : AreSized (length cfg) (width_of width) sets) where
  after_step :
      (live : LiveBits) (i d : ℕ)
      → LiveSized (length cfg) (width_of width) live
      → IsJustified cfg sets live
      → has_bit (out_at cfg sets width sized live i) d ≡ true
      → NeededAfter cfg sets d i
  after_step live i d z j h =
      some-Needed cfg sets live d (cfg_successors cfg i) j (cfg_successors-Below cfg i)
        (out_at-member cfg sets width sized live i d z h)

  before_step :
      (live : LiveBits) (i d : ℕ)
      → i < length cfg
      → LiveSized (length cfg) (width_of width) live
      → IsJustified cfg sets live
      → has_bit (in_at cfg sets width sized live i) d ≡ true
      → Needed cfg sets d i
  before_step live i d lt z j h =
      let o = out_at cfg sets width sized live i in
      let e =
        has_bit-new_in cfg sets width sized o i d lt (length-out_at cfg sets width sized live i) in
      elim (or_cases _ _ _ (sym e ∙ h)) [
        | inl g ↦ used lt g
        | inr p ↦ let r = after_step live i d z j p.0 in passed lt r.1 p.1 r.2
      ]

  pub stored-IsJustified :
      (live : LiveBits) (i : ℕ)
      → i < length cfg
      → LiveSized (length cfg) (width_of width) live
      → IsJustified cfg sets live
      → IsJustified cfg sets (stored cfg sets width sized live i)
  stored-IsJustified live i lt z j = record {
    ins = λ k d h m.
        let b =
          bits_at-set live.live_in i k (in_at cfg sets width sized live i) (rw z.ins.many lt) in
        elim (Bool-cases (i == k)) [
          | inl e ↦
              subst (Needed cfg sets d) (same_number i k e)
                (before_step live i d lt z j (rw (b, e) at m))
          | inr e ↦ j.ins k d h (rw (b, e) at m)
        ];
    outs = λ k d h m.
        let b =
          bits_at-set live.live_out i k (out_at cfg sets width sized live i) (rw z.outs.many lt) in
        elim (Bool-cases (i == k)) [
          | inl e ↦
              subst (NeededAfter cfg sets d) (same_number i k e)
                (after_step live i d z j (rw (b, e) at m))
          | inr e ↦ j.outs k d h (rw (b, e) at m)
        ];
  }

  -- Sets that meet the equations have a bit for every path.
  pub Needed-has_bit :
      (live : LiveBits)
      → LiveSized (length cfg) (width_of width) live
      → ((i : ℕ) → i < length cfg → Equations cfg sets width sized live i)
      → (d : ℕ) {i : ℕ} → Needed cfg sets d i
      → has_bit (bits_at live.live_in i) d ≡ true
  Needed-has_bit live z q d (used {i} lt g) =
      let o = out_at cfg sets width sized live i in
      let e =
        has_bit-new_in cfg sets width sized o i d lt (length-out_at cfg sets width sized live i) in
      ap (λ b. has_bit b d) (q i lt).0 ∙ e ∙ rw g refl
  Needed-has_bit live z q d (passed {i} {s} lt k n r) =
      let o = out_at cfg sets width sized live i in
      let e =
        has_bit-new_in cfg sets width sized o i d lt (length-out_at cfg sets width sized live i) in
      let m =
        out_at-has cfg sets width sized live i d z
          (has_some live.live_in d s (cfg_successors cfg i) k (Needed-has_bit live z q d r)) in
      ap (λ b. has_bit b d) (q i lt).0 ∙ e ∙ passed_bits _ _ _ m n
