-- ===== src/Types/Operator/RoundTrip.antt =====
-- src/types/Operator.cpp: a lexeme is read as an operator exactly if it is its spelling.
use Prim.Native.String.{String}
use text.Mathlib.Text.{◌==◌}
use text.Mathlib.TextEquality.{eq_iff}
use trans.Prelude.{
  ◌≡◌, refl, ◌↔◌, Option, some, arith, ap, ◌∙◌, Bool-cases, inl, inr, if◌then◌else◌,
}
use trans.Types.Operator.{
  UnaryOp, unary_op_from_lexeme, IncDec, inc_dec_from_lexeme, ArithmeticOp,
  arithmetic_op_from_lexeme, ShiftOp, shift_op_from_lexeme, ComparisonOp, comparison_op_from_lexeme,
  BitwiseOp, bitwise_op_from_lexeme, AssignOp, assign_op_from_lexeme, spelling_unary_op,
  spelling_inc_dec, spelling_binary_op, spelling_assign_op, as_binary_arithmetic_op,
  as_binary_shift_op, as_binary_comparison_op, as_binary_bitwise_op,
}

some_inj {ℓ} : {A : Type ℓ} {a b : A} → some a ≡ some b → a ≡ b
some_inj e = cc

read_case {ℓ κ} :
    {A : Type ℓ} {P : Type κ} (s t : String) (c op : A) (x : Option A)
    → (if s == t then some c else x) ≡ some op
    → (s ≡ t → c ≡ op → P)
    → (x ≡ some op → P)
    → P
read_case s t c op x h yes_case no_case = elim (Bool-cases (s == t)) [
  | inl e ↦ yes_case ((eq_iff s t).0 e) (some_inj (rw e at h))
  | inr e ↦ no_case (rw e at h)
]

read_unary_op :
    (s : String) (op : UnaryOp) → unary_op_from_lexeme s ≡ some op → s ≡ spelling_unary_op op
unfolding unary_op_from_lexeme spelling_unary_op
read_unary_op s op h = ground (
  arith,
  eq_iff s "+",
  eq_iff s "-",
  eq_iff s "!",
  eq_iff s "~",
  eq_iff s "*",
  eq_iff s "&",
  eq_iff s "sizeof",
)

spelled_unary_op : (op : UnaryOp) → unary_op_from_lexeme (spelling_unary_op op) ≡ some op
unfolding unary_op_from_lexeme spelling_unary_op
spelled_unary_op UnaryOp.plus = refl
spelled_unary_op UnaryOp.minus = refl
spelled_unary_op UnaryOp.logical_not = refl
spelled_unary_op UnaryOp.bit_not = refl
spelled_unary_op UnaryOp.deref = refl
spelled_unary_op UnaryOp.addr = refl
spelled_unary_op UnaryOp.sizeof = refl

read_inc_dec :
    (s : String) (op : IncDec) → inc_dec_from_lexeme s ≡ some op → s ≡ spelling_inc_dec op
unfolding inc_dec_from_lexeme spelling_inc_dec
read_inc_dec s op h = ground (arith, eq_iff s "++", eq_iff s "--")

spelled_inc_dec : (op : IncDec) → inc_dec_from_lexeme (spelling_inc_dec op) ≡ some op
unfolding inc_dec_from_lexeme spelling_inc_dec
spelled_inc_dec IncDec.inc = refl
spelled_inc_dec IncDec.dec = refl

read_arithmetic_op :
    (s : String) (op : ArithmeticOp)
    → arithmetic_op_from_lexeme s ≡ some op
    → s ≡ spelling_binary_op (as_binary_arithmetic_op op)
unfolding arithmetic_op_from_lexeme spelling_binary_op as_binary_arithmetic_op
read_arithmetic_op s op h =
    ground (arith, eq_iff s "+", eq_iff s "-", eq_iff s "*", eq_iff s "/", eq_iff s "%")

spelled_arithmetic_op :
    (op : ArithmeticOp)
    → arithmetic_op_from_lexeme (spelling_binary_op (as_binary_arithmetic_op op)) ≡ some op
unfolding arithmetic_op_from_lexeme spelling_binary_op as_binary_arithmetic_op
spelled_arithmetic_op ArithmeticOp.add = refl
spelled_arithmetic_op ArithmeticOp.sub = refl
spelled_arithmetic_op ArithmeticOp.mul = refl
spelled_arithmetic_op ArithmeticOp.div = refl
spelled_arithmetic_op ArithmeticOp.modulo = refl

read_shift_op :
    (s : String) (op : ShiftOp)
    → shift_op_from_lexeme s ≡ some op
    → s ≡ spelling_binary_op (as_binary_shift_op op)
unfolding shift_op_from_lexeme spelling_binary_op as_binary_shift_op
read_shift_op s op h = ground (arith, eq_iff s "<<", eq_iff s ">>")

spelled_shift_op :
    (op : ShiftOp) → shift_op_from_lexeme (spelling_binary_op (as_binary_shift_op op)) ≡ some op
unfolding shift_op_from_lexeme spelling_binary_op as_binary_shift_op
spelled_shift_op ShiftOp.shl = refl
spelled_shift_op ShiftOp.shr = refl

read_comparison_op :
    (s : String) (op : ComparisonOp)
    → comparison_op_from_lexeme s ≡ some op
    → s ≡ spelling_binary_op (as_binary_comparison_op op)
unfolding comparison_op_from_lexeme spelling_binary_op as_binary_comparison_op
read_comparison_op s op h =
    ground (
      arith,
      eq_iff s "<",
      eq_iff s ">",
      eq_iff s "<=",
      eq_iff s ">=",
      eq_iff s "==",
      eq_iff s "!=",
    )

spelled_comparison_op :
    (op : ComparisonOp)
    → comparison_op_from_lexeme (spelling_binary_op (as_binary_comparison_op op)) ≡ some op
unfolding comparison_op_from_lexeme spelling_binary_op as_binary_comparison_op
spelled_comparison_op ComparisonOp.lt = refl
spelled_comparison_op ComparisonOp.gt = refl
spelled_comparison_op ComparisonOp.le = refl
spelled_comparison_op ComparisonOp.ge = refl
spelled_comparison_op ComparisonOp.eq = refl
spelled_comparison_op ComparisonOp.ne = refl

read_bitwise_op :
    (s : String) (op : BitwiseOp)
    → bitwise_op_from_lexeme s ≡ some op
    → s ≡ spelling_binary_op (as_binary_bitwise_op op)
unfolding bitwise_op_from_lexeme spelling_binary_op as_binary_bitwise_op
read_bitwise_op s op h = ground (arith, eq_iff s "&", eq_iff s "|", eq_iff s "^")

spelled_bitwise_op :
    (op : BitwiseOp)
    → bitwise_op_from_lexeme (spelling_binary_op (as_binary_bitwise_op op)) ≡ some op
unfolding bitwise_op_from_lexeme spelling_binary_op as_binary_bitwise_op
spelled_bitwise_op BitwiseOp.bit_and = refl
spelled_bitwise_op BitwiseOp.bit_or = refl
spelled_bitwise_op BitwiseOp.bit_xor = refl

read_assign_op :
    (s : String) (op : AssignOp) → assign_op_from_lexeme s ≡ some op → s ≡ spelling_assign_op op
unfolding assign_op_from_lexeme spelling_assign_op
read_assign_op s op h =
    read_case s "=" _ op _ h (λ e k. e ∙ ap spelling_assign_op k)
      λ h.
        read_case s "*=" _ op _ h (λ e k. e ∙ ap spelling_assign_op k)
          λ h.
            read_case s "/=" _ op _ h (λ e k. e ∙ ap spelling_assign_op k)
              λ h.
                read_case s "%=" _ op _ h (λ e k. e ∙ ap spelling_assign_op k)
                  λ h.
                    read_case s "+=" _ op _ h (λ e k. e ∙ ap spelling_assign_op k)
                      λ h.
                        read_case s "-=" _ op _ h (λ e k. e ∙ ap spelling_assign_op k)
                          λ h.
                            read_case s "<<=" _ op _ h (λ e k. e ∙ ap spelling_assign_op k)
                              λ h.
                                read_case s ">>=" _ op _ h (λ e k. e ∙ ap spelling_assign_op k)
                                  λ h.
                                    read_case s "&=" _ op _ h (λ e k. e ∙ ap spelling_assign_op k)
                                      λ h.
                                        read_case s "^=" _ op _ h
                                          (λ e k. e ∙ ap spelling_assign_op k)
                                          λ h.
                                            read_case s "|=" _ op _ h
                                              (λ e k. e ∙ ap spelling_assign_op k) λ h. cc

spelled_assign_op : (op : AssignOp) → assign_op_from_lexeme (spelling_assign_op op) ≡ some op
unfolding assign_op_from_lexeme spelling_assign_op
spelled_assign_op AssignOp.assign = refl
spelled_assign_op AssignOp.mul_assign = refl
spelled_assign_op AssignOp.div_assign = refl
spelled_assign_op AssignOp.mod_assign = refl
spelled_assign_op AssignOp.add_assign = refl
spelled_assign_op AssignOp.sub_assign = refl
spelled_assign_op AssignOp.shl_assign = refl
spelled_assign_op AssignOp.shr_assign = refl
spelled_assign_op AssignOp.and_assign = refl
spelled_assign_op AssignOp.xor_assign = refl
spelled_assign_op AssignOp.or_assign = refl

-- For every operator but the logical ones, of each of its enumerations, a lexeme is read as the operator
-- exactly if it is the operator's spelling, which for an operator of arithmetic, of a shift, of a comparison
-- or of bits is that of the binary operator it is converted to.
pub operators_round_trip :
    (s : String) (u : UnaryOp) (i : IncDec) (a : ArithmeticOp) (h : ShiftOp) (c : ComparisonOp)
    (b : BitwiseOp) (g : AssignOp)
    → ((unary_op_from_lexeme s ≡ some u) ↔ (s ≡ spelling_unary_op u))
      × ((inc_dec_from_lexeme s ≡ some i) ↔ (s ≡ spelling_inc_dec i))
      × ((arithmetic_op_from_lexeme s ≡ some a)
          ↔ (s ≡ spelling_binary_op (as_binary_arithmetic_op a)))
      × ((shift_op_from_lexeme s ≡ some h) ↔ (s ≡ spelling_binary_op (as_binary_shift_op h)))
      × ((comparison_op_from_lexeme s ≡ some c)
          ↔ (s ≡ spelling_binary_op (as_binary_comparison_op c)))
      × ((bitwise_op_from_lexeme s ≡ some b) ↔ (s ≡ spelling_binary_op (as_binary_bitwise_op b)))
      × ((assign_op_from_lexeme s ≡ some g) ↔ (s ≡ spelling_assign_op g))
operators_round_trip s u i a h c b g = (
  (read_unary_op s u, λ e. ap unary_op_from_lexeme e ∙ spelled_unary_op u),
  (read_inc_dec s i, λ e. ap inc_dec_from_lexeme e ∙ spelled_inc_dec i),
  (read_arithmetic_op s a, λ e. ap arithmetic_op_from_lexeme e ∙ spelled_arithmetic_op a),
  (read_shift_op s h, λ e. ap shift_op_from_lexeme e ∙ spelled_shift_op h),
  (read_comparison_op s c, λ e. ap comparison_op_from_lexeme e ∙ spelled_comparison_op c),
  (read_bitwise_op s b, λ e. ap bitwise_op_from_lexeme e ∙ spelled_bitwise_op b),
  (read_assign_op s g, λ e. ap assign_op_from_lexeme e ∙ spelled_assign_op g),
)
