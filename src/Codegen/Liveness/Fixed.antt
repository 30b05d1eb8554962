-- ===== src/Codegen/Liveness/Fixed.antt =====
-- src/codegen/Liveness.cpp: one step of the solution, and the equations that hold when nothing changes.
use trans.Prelude.{
  ℕ, zero, suc, ◌<◌, ◌≡◌, refl, sym, ◌∙◌, ◌⊎◌, inl, inr, Bool, true, false, not, List, length, set,
  arith, if◌then◌else◌, ◌||◌, ◌&&◌, get_or-replicate, Bool-cases, ◌==◌, ==_iff, subst,
}
use trans.Codegen.Cfg.{Cfg, cfg_successors}
use trans.Codegen.Cfg.Search.{cfg_successors-Below}
use trans.Codegen.Liveness.Sets.{
  Bits, empty_bits, has_bit, same_bits, same_bits-eq, has_bit-gen_or_kept, length-gen_or_kept,
}
use trans.Codegen.Liveness.{BlockSets, LiveBits, new_out, new_in, update_block, update_blocks}
use trans.Codegen.Liveness.Sized.{
  bits_at, sets_at, width_of, AreSized, LiveSized, set-IsSized, SomeHas, length-union_in,
  union_in-member, union_in-has,
}

not_both : {b : Bool} → b ≡ false → b ≡ true → ⊥
not_both p q = cc

true-ne-false : true ≡ false → ⊥
true-ne-false e = cc

both : (a b : Bool) → (a && b) ≡ true → (a ≡ true) × (b ≡ true)
both a b h = ground arith

at_or_below {ℓ} : (i n : ℕ) (P : ℕ → Type ℓ) → P n → ((j : ℕ) → j < n → P j) → i < suc n → P i
at_or_below i n P p below h = elim (Bool-cases (i == n)) [
  | inl e ↦ subst P (sym ((==_iff i n).0 e)) p
  | inr e ↦ below i (ground arith)
]

module _ (cfg : Cfg) (sets : List BlockSets) (width : ℕ)
    (sized : AreSized (length cfg) (width_of width) sets) where
  abbrev pub out_at : LiveBits → ℕ → Bits
  out_at live i = new_out cfg width live i

  abbrev pub in_at : LiveBits → ℕ → Bits
  in_at live i = new_in (sets_at sets i) (out_at live i)

  pub length-out_at : (live : LiveBits) (i : ℕ) → length (out_at live i) ≡ width_of width
  unfolding new_out
  length-out_at live i =
      length-union_in (length cfg) (width_of width) live.live_in (empty_bits width)
        (cfg_successors cfg i) refl

  pub length-in_at :
      (live : LiveBits) (i : ℕ) → i < length cfg → length (in_at live i) ≡ width_of width
  unfolding new_in
  length-in_at live i h =
      let o = length-out_at live i in
      length-gen_or_kept (sets_at sets i).gen (out_at live i) (sets_at sets i).kill
        (sized.gens i h ∙ sym o) (sized.kills i h ∙ sym o)
      ∙ o

  -- What has a bit before a block, from the bits after it.
  pub has_bit-new_in :
      (out : Bits) (i d : ℕ)
      → i < length cfg
      → length out ≡ width_of width
      → has_bit (new_in (sets_at sets i) out) d ≡ (
          has_bit (sets_at sets i).gen d
          || (has_bit out d && not (has_bit (sets_at sets i).kill d)))
  unfolding new_in
  has_bit-new_in out i d h o =
      has_bit-gen_or_kept (sets_at sets i).gen out (sets_at sets i).kill d (sized.gens i h ∙ sym o)
        (sized.kills i h ∙ sym o)

  empty-member : (d : ℕ) → has_bit (empty_bits width) d ≡ false
  empty-member d = get_or-replicate _ false d

  pub out_at-member :
      (live : LiveBits) (i d : ℕ)
      → LiveSized (length cfg) (width_of width) live
      → has_bit (out_at live i) d ≡ true
      → SomeHas live.live_in d (cfg_successors cfg i)
  unfolding new_out
  out_at-member live i d z m =
      elim (union_in-member (length cfg) (width_of width) live.live_in (empty_bits width)
        (cfg_successors cfg i) d z.ins (cfg_successors-Below cfg i) refl m) [
          | inl e ↦ absurd (not_both (empty-member d) e)
          | inr x ↦ x
        ]

  pub out_at-has :
      (live : LiveBits) (i d : ℕ)
      → LiveSized (length cfg) (width_of width) live
      → SomeHas live.live_in d (cfg_successors cfg i)
      → has_bit (out_at live i) d ≡ true
  unfolding new_out
  out_at-has live i d z m =
      union_in-has (length cfg) (width_of width) live.live_in (empty_bits width)
        (cfg_successors cfg i) d z.ins (cfg_successors-Below cfg i) refl m

  -- The sets after a step that changes block `i`.
  abbrev pub stored : LiveBits → ℕ → LiveBits
  stored live i = record {
    live_in = set live.live_in i (in_at live i);
    live_out = set live.live_out i (out_at live i);
  }

  abbrev pub is_kept : LiveBits → ℕ → Bool
  is_kept live i =
      same_bits (in_at live i) (bits_at live.live_in i)
      && same_bits (out_at live i) (bits_at live.live_out i)

  pub update_block_lem :
      (live : LiveBits) (i : ℕ)
      → update_block cfg sets width live i
        ≡ (if is_kept live i then (live, false) else (stored live i, true))
  unfolding update_block
  update_block_lem live i = refl

  pub stored-LiveSized :
      (live : LiveBits) (i : ℕ)
      → i < length cfg
      → LiveSized (length cfg) (width_of width) live
      → LiveSized (length cfg) (width_of width) (stored live i)
  stored-LiveSized live i h z = record {
    ins =
        set-IsSized (length cfg) (width_of width) i live.live_in (in_at live i) z.ins h
          (length-in_at live i h);
    outs =
        set-IsSized (length cfg) (width_of width) i live.live_out (out_at live i) z.outs h
          (length-out_at live i);
  }

  -- What holds of the sets, and is kept by a step that changes a block, holds after the loop.
  pub update_blocks-keeps {ℓ} :
      (P : LiveBits → Type ℓ)
      → ((live : LiveBits) (i : ℕ) → i < length cfg → P live → P (stored live i))
      → (live : LiveBits) (n : ℕ) → (n ≡ length cfg) ⊎ (n < length cfg)
      → P live
      → P (update_blocks cfg sets width live n).0
  unfolding update_blocks
  update_blocks-keeps P step live zero h p = p
  update_blocks-keeps P step live (suc n) h p = elim (Bool-cases (is_kept live n)) [
    | inl e ↦ rw (update_block_lem live n, e) (update_blocks-keeps P step live n (omega arith) p)
    | inr e ↦
        rw (update_block_lem live n, e)
          (update_blocks-keeps P step (stored live n) n (omega arith) (step live n (omega arith) p))
  ]

  abbrev pub Equations : LiveBits → ℕ → Type 0
  Equations live i =
      (bits_at live.live_in i ≡ in_at live i) × (bits_at live.live_out i ≡ out_at live i)

  kept-Equations : (live : LiveBits) (i : ℕ) → is_kept live i ≡ true → Equations live i
  kept-Equations live i k =
      let p = both (same_bits (in_at live i) (bits_at live.live_in i)) _ k in
      (sym (same_bits-eq _ _ p.0), sym (same_bits-eq _ _ p.1))

  -- A loop that changes nothing leaves the sets, and they meet the equations of its blocks.
  pub update_blocks-fixed :
      (live : LiveBits) (n : ℕ)
      → (update_blocks cfg sets width live n).1 ≡ false
      → ((update_blocks cfg sets width live n).0 ≡ live) × ((i : ℕ) → i < n → Equations live i)
  unfolding update_blocks
  update_blocks-fixed live zero e = (refl, λ i h. absurd (omega arith))
  update_blocks-fixed live (suc n) e = elim (Bool-cases (is_kept live n)) [
    | inl k ↦
        let r = update_blocks-fixed live n (rw (update_block_lem live n, k) at e) in
        (
          rw (update_block_lem live n, k) r.0,
          λ i h. at_or_below i n (Equations live) (kept-Equations live n k) r.1 h,
        )
    | inr k ↦ absurd (true-ne-false (rw (update_block_lem live n, k) at e))
  ]
