-- ===== src/Codegen/Liveness/Rounds.antt =====
-- src/codegen/Liveness.cpp: a round that changes the sets adds a member, so that the rounds are bounded.
use trans.Prelude.{
  ℕ, zero, suc, ◌+◌, ◌*◌, ◌≤◌, ◌<◌, ◌≡◌, sym, subst, ◌∙◌, ◌⊎◌, inl, inr, Bool, true, false, not,
  List, [], ◌∷◌, length, set, All, arith, ◌||◌, ◌&&◌, ◌==◌, Bool-cases,
}
use trans.Codegen.Cfg.{Cfg, cfg_successors}
use trans.Codegen.Cfg.Visits.{Below}
use trans.Codegen.Cfg.Search.{cfg_successors-Below}
use trans.Codegen.Liveness.Sets.{Bits, has_bit, count, count-le-length, count_subset, Subset}
use trans.Codegen.Liveness.{BlockSets, LiveBits, update_blocks}
use trans.Codegen.Liveness.Sized.{bits_at, width_of, AreSized, LiveSized, SomeHas, bits_at-set}
use trans.Codegen.Liveness.Fixed.{
  out_at, in_at, length-out_at, length-in_at, has_bit-new_in, out_at-member, out_at-has, stored,
  stored-LiveSized, is_kept, update_block_lem,
}

abbrev pub total : List Bits → ℕ
total [] = 0
total (b ∷ bs) = count b + total bs

abbrev pub total_live : LiveBits → ℕ
total_live live = total live.live_in + total live.live_out

total-set :
    (sets : List Bits) (i : ℕ) (v : Bits)
    → i < length sets
    → total (set sets i v) + count (bits_at sets i) ≡ total sets + count v
total-set [] i v h = absurd (omega arith)
total-set (b ∷ bs) zero v h = omega arith
total-set (b ∷ bs) (suc i) v h = omega (arith, total-set bs i v (omega arith))

pub total-bounded :
    (width : ℕ) (sets : List Bits)
    → ((i : ℕ) → i < length sets → length (bits_at sets i) ≡ width)
    → total sets ≤ length sets * width
total-bounded width [] h = omega arith
total-bounded width (b ∷ bs) h = grind (
  arith,
  count-le-length b,
  h 0 (omega arith),
  total-bounded width bs (λ i k. h (suc i) (omega arith)),
)

not_both : (a b : Bool) → (a && b) ≡ false → (a ≡ false) ⊎ (b ≡ false)
not_both a b h = ground arith

or_mono :
    (a b b' c : Bool)
    → (b ≡ true → b' ≡ true)
    → (a || (b && not c)) ≡ true
    → (a || (b' && not c)) ≡ true
or_mono a b b' c f h = ground arith

same_number : (i j : ℕ) → (i == j) ≡ true → i ≡ j
same_number i j e = ground arith

module _ (cfg : Cfg) (sets : List BlockSets) (width : ℕ)
    (sized : AreSized (length cfg) (width_of width) sets) where
  -- The sets before each block have at least the members that they had.
  abbrev Larger : LiveBits → LiveBits → Type 0
  Larger old new = (s : ℕ) → s < length cfg → Subset (bits_at old.live_in s) (bits_at new.live_in s)

  -- A step of any block would only add members.
  pub record IsGrowing (live : LiveBits) : Type 0 where
    pub ins :
        (i : ℕ)
        → i < length cfg
        → Subset (bits_at live.live_in i) (in_at cfg sets width sized live i)
    pub outs :
        (i : ℕ)
        → i < length cfg
        → Subset (bits_at live.live_out i) (out_at cfg sets width sized live i)

  some-Larger :
      (old new : LiveBits) (d : ℕ) (ss : List ℕ)
      → Larger old new
      → All (Below (length cfg)) ss
      → SomeHas old.live_in d ss
      → SomeHas new.live_in d ss
  some-Larger old new d [] l b h = absurd h
  some-Larger old new d (s ∷ rest) l b (inl h) = inl (l s b.0 d h)
  some-Larger old new d (s ∷ rest) l b (inr h) = inr (some-Larger old new d rest l b.1 h)

  out_at_mono :
      (old new : LiveBits) (i : ℕ)
      → LiveSized (length cfg) (width_of width) old
      → LiveSized (length cfg) (width_of width) new
      → Larger old new
      → Subset (out_at cfg sets width sized old i) (out_at cfg sets width sized new i)
  out_at_mono old new i y z l d h = out_at-has cfg sets width sized new i d z (
      some-Larger old new d (cfg_successors cfg i) l (cfg_successors-Below cfg i)
        (out_at-member cfg sets width sized old i d y h))

  in_at_mono :
      (old new : LiveBits) (i : ℕ)
      → i < length cfg
      → LiveSized (length cfg) (width_of width) old
      → LiveSized (length cfg) (width_of width) new
      → Larger old new
      → Subset (in_at cfg sets width sized old i) (in_at cfg sets width sized new i)
  in_at_mono old new i lt y z l d h =
      let o = out_at cfg sets width sized old i in
      let n = out_at cfg sets width sized new i in
      let e =
        has_bit-new_in cfg sets width sized o i d lt (length-out_at cfg sets width sized old i) in
      let f =
        has_bit-new_in cfg sets width sized n i d lt (length-out_at cfg sets width sized new i) in
      f ∙ or_mono _ _ _ _ (out_at_mono old new i y z l d) (sym e ∙ h)

  stored-Larger :
      (live : LiveBits) (i : ℕ)
      → i < length cfg
      → LiveSized (length cfg) (width_of width) live
      → IsGrowing live
      → Larger live (stored cfg sets width sized live i)
  stored-Larger live i lt z g s h d m =
      let b = bits_at-set live.live_in i s (in_at cfg sets width sized live i) (rw z.ins.many lt) in
      elim (Bool-cases (i == s)) [
        | inl e ↦
            rw (b, e)
              (g.ins i lt d (
                subst (λ k. has_bit (bits_at live.live_in k) d ≡ true) (sym (same_number i s e)) m))
        | inr e ↦ rw (b, e) m
      ]

  pub stored-IsGrowing :
      (live : LiveBits) (i : ℕ)
      → i < length cfg
      → LiveSized (length cfg) (width_of width) live
      → IsGrowing live
      → IsGrowing (stored cfg sets width sized live i)
  stored-IsGrowing live i lt z g =
      let z' = stored-LiveSized cfg sets width sized live i lt z in
      let l = stored-Larger live i lt z g in
      let live' = stored cfg sets width sized live i in
      record {
        ins = λ k h d m.
            let b =
              bits_at-set live.live_in i k (in_at cfg sets width sized live i) (rw z.ins.many lt) in
            in_at_mono live live' k h z z' l d (elim (Bool-cases (i == k)) [
              | inl e ↦
                  subst (λ j. has_bit (in_at cfg sets width sized live j) d ≡ true)
                    (same_number i k e) (rw (b, e) at m)
              | inr e ↦ g.ins k h d (rw (b, e) at m)
            ]);
        outs = λ k h d m.
            let b =
              bits_at-set live.live_out i k (out_at cfg sets width sized live i)
                (rw z.outs.many lt) in
            out_at_mono live live' k z z' l d (elim (Bool-cases (i == k)) [
              | inl e ↦
                  subst (λ j. has_bit (out_at cfg sets width sized live j) d ≡ true)
                    (same_number i k e) (rw (b, e) at m)
              | inr e ↦ g.outs k h d (rw (b, e) at m)
            ]);
      }

  stored-total :
      (live : LiveBits) (i : ℕ)
      → i < length cfg
      → LiveSized (length cfg) (width_of width) live
      → IsGrowing live
      → is_kept cfg sets width sized live i ≡ false
      → total_live live < total_live (stored cfg sets width sized live i)
  stored-total live i lt z g k =
      let into = in_at cfg sets width sized live i in
      let out = out_at cfg sets width sized live i in
      let p =
        count_subset (bits_at live.live_in i) into
          (z.ins.wide i lt ∙ sym (length-in_at cfg sets width sized live i lt)) (g.ins i lt) in
      let q =
        count_subset (bits_at live.live_out i) out
          (z.outs.wide i lt ∙ sym (length-out_at cfg sets width sized live i)) (g.outs i lt) in
      let s = total-set live.live_in i into (rw z.ins.many lt) in
      let t = total-set live.live_out i out (rw z.outs.many lt) in
      elim (not_both _ _ k) [
        | inl a ↦ let m = p.1 a in omega (arith, m, q.0, s, t)
        | inr a ↦ let m = q.1 a in omega (arith, m, p.0, s, t)
      ]

  -- The loop over the blocks, from sets that grow: a member more if it changes anything.
  pub update_blocks-total :
      (live : LiveBits) (n : ℕ)
      → (n ≡ length cfg) ⊎ (n < length cfg)
      → LiveSized (length cfg) (width_of width) live
      → IsGrowing live
      → (total_live live ≤ total_live (update_blocks cfg sets width live n).0)
        × ((update_blocks cfg sets width live n).1 ≡ true
            → total_live live < total_live (update_blocks cfg sets width live n).0)
  unfolding update_blocks
  update_blocks-total live zero h z g = (omega arith, λ e. cc)
  update_blocks-total live (suc n) h z g = elim (Bool-cases (is_kept cfg sets width sized live n)) [
    | inl e ↦
        rw (update_block_lem cfg sets width sized live n, e)
          (update_blocks-total live n (omega arith) z g)
    | inr e ↦
        let r =
          update_blocks-total (stored cfg sets width sized live n) n (omega arith)
            (stored-LiveSized cfg sets width sized live n (omega arith) z)
            (stored-IsGrowing live n (omega arith) z g) in
        let s = stored-total live n (omega arith) z g e in
        rw (update_block_lem cfg sets width sized live n, e)
          (omega (arith, r.0, s), λ _. omega (arith, r.0, s))
  ]
