-- ===== src/Codegen/Liveness/Whole.antt =====
-- src/codegen/Liveness.cpp: the solution exists, and its bits are the paths to a use.
use trans.Prelude.{
  ℕ, zero, suc, ◌+◌, ◌*◌, ◌≤◌, ◌<◌, ◌≡◌, refl, sym, ap, ◌∙◌, inl, inr, ◌↔◌, true, false, some, List,
  length, replicate, arith, get_or-replicate, length-replicate, Bool-cases,
}
use trans.Codegen.Cfg.{Cfg}
use trans.Codegen.Liveness.Sets.{Bits, has_bit, empty_bits}
use trans.Codegen.Liveness.{BlockSets, LiveBits, update_blocks, solve_from, solve_liveness, no_bits}
use trans.Codegen.Liveness.Sized.{bits_at, width_of, IsSized, AreSized, LiveSized}
use trans.Codegen.Liveness.Fixed.{
  stored-LiveSized, update_blocks-keeps, update_blocks-fixed, Equations,
}
use trans.Codegen.Liveness.Paths.{IsJustified, Needed, stored-IsJustified, Needed-has_bit}
use trans.Codegen.Liveness.Rounds.{
  total, total_live, total-bounded, IsGrowing, stored-IsGrowing, update_blocks-total,
}

bits_at-replicate : (n i : ℕ) (b : Bits) → i < n → bits_at (replicate n b) i ≡ b
bits_at-replicate zero i b h = absurd (omega arith)
bits_at-replicate (suc n) zero b h = refl
bits_at-replicate (suc n) (suc i) b h = bits_at-replicate n i b (omega arith)

true-ne-false : true ≡ false → ⊥
true-ne-false e = cc

no_bits-empty :
    (cfg : Cfg) (width i d : ℕ)
    → i < length cfg
    → has_bit (bits_at (no_bits cfg width) i) d ≡ true
    → ⊥
no_bits-empty cfg width i d h m =
    let e = bits_at-replicate (length cfg) i (empty_bits width) h in
    let f = get_or-replicate _ false d in true-ne-false (sym m ∙ ap (λ b. has_bit b d) e ∙ f)

no_bits-IsSized :
    (cfg : Cfg) (width : ℕ) → IsSized (length cfg) (width_of width) (no_bits cfg width)
no_bits-IsSized cfg width = record {
  many = length-replicate (length cfg) (empty_bits width);
  wide = λ i h. ap length (bits_at-replicate (length cfg) i (empty_bits width) h);
}

-- The most members that the sets of a graph can have.
abbrev pub capacity : Cfg → ℕ → ℕ
capacity cfg width = length cfg * width_of width + length cfg * width_of width

module _ (cfg : Cfg) (sets : List BlockSets) (width : ℕ)
    (sized : AreSized (length cfg) (width_of width) sets) where
  record IsGood (live : LiveBits) : Type 0 where
    fits : LiveSized (length cfg) (width_of width) live
    justified : IsJustified cfg sets live
    growing : IsGrowing cfg sets width sized live

  total-capacity :
      (live : LiveBits)
      → LiveSized (length cfg) (width_of width) live
      → total_live live ≤ capacity cfg width
  total-capacity live z =
      let i = bounded live.live_in z.ins in
      let o = bounded live.live_out z.outs in omega (arith, i, o)
    where
      bounded :
          (s : List Bits)
          → IsSized (length cfg) (width_of width) s
          → total s ≤ length cfg * width_of width
      bounded s z =
          rw (sym z.many) (total-bounded (width_of width) s (λ i h. z.wide i (rw (sym z.many) h)))

  round-IsGood :
      (live : LiveBits) → IsGood live → IsGood (update_blocks cfg sets width live (length cfg)).0
  round-IsGood live g =
      update_blocks-keeps cfg sets width sized IsGood
        (λ l i h k. record {
          fits = stored-LiveSized cfg sets width sized l i h k.fits;
          justified = stored-IsJustified cfg sets width sized l i h k.fits k.justified;
          growing = stored-IsGrowing cfg sets width sized l i h k.fits k.growing;
        })
        live (length cfg) (inl refl) g

  abbrev IsSolution : LiveBits → Type 0
  IsSolution live = (i : ℕ) → i < length cfg → Equations cfg sets width sized live i

  solve_from_lem :
      (fuel : ℕ) (live : LiveBits)
      → IsGood live
      → capacity cfg width < fuel + total_live live
      → (last : LiveBits) × (solve_from fuel cfg sets width live ≡ some last)
        × IsGood last
        × IsSolution last
  unfolding solve_from
  solve_from_lem zero live g h = absurd (omega (arith, total-capacity live g.fits))
  solve_from_lem (suc fuel) live g h =
      let next = (update_blocks cfg sets width live (length cfg)).0 in
      let t =
        update_blocks-total cfg sets width sized live (length cfg) (inl refl) g.fits g.growing in
      elim (Bool-cases (update_blocks cfg sets width live (length cfg)).1) [
        | inl e ↦
            let r = solve_from_lem fuel next (round-IsGood live g) (omega (arith, t.1 e)) in
            (r.0, rw (e, solve_from) r.1, r.2, r.3)
        | inr e ↦
            let f = update_blocks-fixed cfg sets width sized live (length cfg) e in
            (live, rw (e, solve_from) (ap some f.0), g, f.1)
      ]

  first-IsGood : IsGood (record { live_in = no_bits cfg width; live_out = no_bits cfg width })
  first-IsGood = record {
    fits = record { ins = no_bits-IsSized cfg width; outs = no_bits-IsSized cfg width };
    justified = record {
      ins = λ i d h m. absurd (no_bits-empty cfg width i d h m);
      outs = λ i d h m. absurd (no_bits-empty cfg width i d h m);
    };
    growing = record {
      ins = λ i h d m. absurd (no_bits-empty cfg width i d h m);
      outs = λ i h d m. absurd (no_bits-empty cfg width i d h m);
    };
  }

  -- For sets of the width of the procedure, and fuel above the number of bits of the sets, the solution
  -- is found, and a value is live at the start of a block exactly if there is a path from there to a block
  -- that uses it before any kill, none of the blocks before that one killing it.
  pub solve_liveness_lem :
      (fuel : ℕ)
      → capacity cfg width < fuel
      → (live : LiveBits) × (solve_liveness fuel cfg sets width ≡ some live)
        × ((i d : ℕ)
            → i < length cfg
            → (has_bit (bits_at live.live_in i) d ≡ true) ↔ Needed cfg sets d i)
  unfolding solve_liveness
  solve_liveness_lem fuel h =
      let r = solve_from_lem fuel _ first-IsGood (omega arith) in
      (
        r.0,
        r.1,
        λ i d lt.
            (r.2.justified.ins i d lt, Needed-has_bit cfg sets width sized r.0 r.2.fits r.3 d),
      )
