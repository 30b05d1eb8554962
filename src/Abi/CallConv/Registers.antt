-- ===== src/Abi/CallConv/Registers.antt =====
-- src/codegen/SysVCallConv.h: registers are handed out in order, each once, and never too many.
use trans.Prelude.{
  ℕ, zero, suc, ◌+◌, ◌≤◌, ◌≡◌, refl, true, List, [], ◌∷◌, ◌++◌, arith, not, ◌&&◌, Bool-cases,
  if_both, ap, inl, inr,
}
use trans.Abi.Classes.{
  Class, Classification, eightbytes, is_integer, is_sse, in_registers, integer_eightbytes,
  sse_eightbytes, count_of, all_of,
}
use trans.Abi.CallConv.{
  SysVArgSlot, integer_reg, sse_reg, stack, SysVArgCounts, SysVArgAssignment, assign_eightbytes,
  assign_sysv_arg, assign_arguments,
}

-- The numbers from `a` on, `n` of them.
abbrev pub range : ℕ → ℕ → List ℕ
range a zero = []
range a (suc n) = a ∷ range (suc a) n

-- The register indices of one kind that a list of slots names, in order.
abbrev pub integer_indices : List (SysVArgSlot × ℕ) → List ℕ
integer_indices [] = []
integer_indices ((integer_reg, i) ∷ s) = i ∷ integer_indices s
integer_indices ((sse_reg, i) ∷ s) = integer_indices s
integer_indices ((stack, i) ∷ s) = integer_indices s

abbrev pub sse_indices : List (SysVArgSlot × ℕ) → List ℕ
sse_indices [] = []
sse_indices ((sse_reg, i) ∷ s) = i ∷ sse_indices s
sse_indices ((integer_reg, i) ∷ s) = sse_indices s
sse_indices ((stack, i) ∷ s) = sse_indices s

abbrev pub all_slots : List SysVArgAssignment → List (SysVArgSlot × ℕ)
all_slots [] = []
all_slots (a ∷ as') = a.slots ++ all_slots as'

integer_indices-append :
    (s t : List (SysVArgSlot × ℕ))
    → integer_indices (s ++ t) ≡ integer_indices s ++ integer_indices t
integer_indices-append [] t = refl
integer_indices-append ((integer_reg, i) ∷ s) t = rw (integer_indices-append s t)
integer_indices-append ((sse_reg, i) ∷ s) t = integer_indices-append s t
integer_indices-append ((stack, i) ∷ s) t = integer_indices-append s t

sse_indices-append :
    (s t : List (SysVArgSlot × ℕ)) → sse_indices (s ++ t) ≡ sse_indices s ++ sse_indices t
sse_indices-append [] t = refl
sse_indices-append ((sse_reg, i) ∷ s) t = rw (sse_indices-append s t)
sse_indices-append ((integer_reg, i) ∷ s) t = sse_indices-append s t
sse_indices-append ((stack, i) ∷ s) t = sse_indices-append s t

-- `range` up to an end that is given by a sum.
range-append : (a n m b : ℕ) → b ≡ a + n → range a n ++ range b m ≡ range a (n + m)
range-append a zero m b h = let e : b ≡ a = omega arith in rw e (ap (range a) (omega arith))
range-append a (suc n) m b h =
    let e : suc n + m ≡ suc (n + m) = omega arith in
    rw e (ap (λ r. a ∷ r) (range-append (suc a) n m b (omega arith)))

-- The slots name the registers between two counts, each once and in order.
pub record HandsOut (used used' : SysVArgCounts) (slots : List (SysVArgSlot × ℕ)) : Type 0 where
  pub integers : ℕ
  pub sses : ℕ
  pub integer_count : used'.integer_regs ≡ used.integer_regs + integers
  pub sse_count : used'.sse_regs ≡ used.sse_regs + sses
  pub integer_order : integer_indices slots ≡ range used.integer_regs integers
  pub sse_order : sse_indices slots ≡ range used.sse_regs sses

HandsOut-append :
    {u v w : SysVArgCounts} (s t : List (SysVArgSlot × ℕ))
    → HandsOut u v s
    → HandsOut v w t
    → HandsOut u w (s ++ t)
HandsOut-append {u} {v} s t p q = record {
  integers = p.integers + q.integers;
  sses = p.sses + q.sses;
  integer_count = omega arith;
  sse_count = omega arith;
  integer_order =
      simp (integer_indices-append, p.integer_order, q.integer_order)
        (range-append u.integer_regs p.integers q.integers v.integer_regs p.integer_count);
  sse_order =
      simp (sse_indices-append, p.sse_order, q.sse_order)
        (range-append u.sse_regs p.sses q.sses v.sse_regs p.sse_count);
}

HandsOut-none : (u : SysVArgCounts) → HandsOut u u []
HandsOut-none u = record {
  integers = 0;
  sses = 0;
  integer_count = omega arith;
  sse_count = omega arith;
  integer_order = refl;
  sse_order = refl;
}

assign_eightbytes-HandsOut :
    (ks : List Class) (u : SysVArgCounts)
    → HandsOut u (assign_eightbytes ks u).1 (assign_eightbytes ks u).0
unfolding assign_eightbytes
assign_eightbytes-HandsOut [] u = HandsOut-none u
assign_eightbytes-HandsOut (k ∷ ks) u = elim (Bool-cases (is_integer k)) [
  | inl e ↦ rw e (
      HandsOut-append ((integer_reg, u.integer_regs) ∷ []) _
        (record {
          integers = 1;
          sses = 0;
          integer_count = refl;
          sse_count = omega arith;
          integer_order = refl;
          sse_order = refl;
        })
        (assign_eightbytes-HandsOut ks (record u { integer_regs = u.integer_regs + 1 })))
  | inr e ↦ rw e (
      HandsOut-append ((sse_reg, u.sse_regs) ∷ []) _
        (record {
          integers = 0;
          sses = 1;
          integer_count = omega arith;
          sse_count = refl;
          integer_order = refl;
          sse_order = refl;
        })
        (assign_eightbytes-HandsOut ks (record u { sse_regs = u.sse_regs + 1 })))
]

assign_sysv_arg-HandsOut :
    (c : Classification) (u : SysVArgCounts) (limit : ℕ)
    → HandsOut u (assign_sysv_arg c u limit).1 (assign_sysv_arg c u limit).0.slots
unfolding assign_sysv_arg
assign_sysv_arg-HandsOut c u limit =
    let P = λ (r : SysVArgAssignment × SysVArgCounts). HandsOut u r.1 r.0.slots in
    if_both P (not (in_registers c)) _ _ (HandsOut-none u)
      (if_both P _ _ _ (HandsOut-none u) (assign_eightbytes-HandsOut (eightbytes c) u))

assign_arguments-HandsOut :
    (cs : List Classification) (u : SysVArgCounts) (limit : ℕ)
    → HandsOut u (assign_arguments cs u limit).1 (all_slots (assign_arguments cs u limit).0)
unfolding assign_arguments
assign_arguments-HandsOut [] u limit = HandsOut-none u
assign_arguments-HandsOut (c ∷ cs) u limit =
    HandsOut-append _ _ (assign_sysv_arg-HandsOut c u limit)
      (assign_arguments-HandsOut cs (assign_sysv_arg c u limit).1 limit)

-- The counts of the eightbytes that a loop over them adds.
assign_eightbytes_counts :
    (ks : List Class) (u : SysVArgCounts)
    → all_of (λ k. not (not (is_integer k) && not (is_sse k))) ks ≡ true
    → ((assign_eightbytes ks u).1.integer_regs ≡ u.integer_regs + count_of is_integer ks)
      × ((assign_eightbytes ks u).1.sse_regs ≡ u.sse_regs + count_of is_sse ks)
unfolding assign_eightbytes is_integer is_sse
assign_eightbytes_counts [] u h = omega arith
assign_eightbytes_counts (k ∷ ks) u h = ground (
  arith,
  assign_eightbytes_counts ks (record u { integer_regs = u.integer_regs + 1 }),
  assign_eightbytes_counts ks (record u { sse_regs = u.sse_regs + 1 }),
)

-- Neither budget is passed: the counts stay within the limits if they start there.
assign_sysv_arg_within :
    (c : Classification) (u : SysVArgCounts) (limit : ℕ)
    → u.integer_regs ≤ limit
    → u.sse_regs ≤ 8
    → ((assign_sysv_arg c u limit).1.integer_regs ≤ limit)
      × ((assign_sysv_arg c u limit).1.sse_regs ≤ 8)
unfolding assign_sysv_arg in_registers integer_eightbytes sse_eightbytes
assign_sysv_arg_within c u limit hi hs = ground (arith, assign_eightbytes_counts (eightbytes c) u)

assign_arguments_within :
    (cs : List Classification) (u : SysVArgCounts) (limit : ℕ)
    → u.integer_regs ≤ limit
    → u.sse_regs ≤ 8
    → ((assign_arguments cs u limit).1.integer_regs ≤ limit)
      × ((assign_arguments cs u limit).1.sse_regs ≤ 8)
unfolding assign_arguments
assign_arguments_within [] u limit hi hs = (hi, hs)
assign_arguments_within (c ∷ cs) u limit hi hs =
    let one = assign_sysv_arg_within c u limit hi hs in
    assign_arguments_within cs (assign_sysv_arg c u limit).1 limit one.0 one.1

-- Over all arguments of a call the integer registers and the SSE registers named are consecutive,
-- from the counts at the start to the counts at the end, each named once; and the counts at the
-- end are within the limits, if those at the start are.
pub assign_arguments_lem :
    (cs : List Classification) (u : SysVArgCounts) (limit : ℕ)
    → u.integer_regs ≤ limit
    → u.sse_regs ≤ 8
    → HandsOut u (assign_arguments cs u limit).1 (all_slots (assign_arguments cs u limit).0)
      × ((assign_arguments cs u limit).1.integer_regs ≤ limit)
      × ((assign_arguments cs u limit).1.sse_regs ≤ 8)
assign_arguments_lem cs u limit hi hs =
    let within = assign_arguments_within cs u limit hi hs in
    (assign_arguments-HandsOut cs u limit, within.0, within.1)
