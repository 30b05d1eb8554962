-- ===== src/Abi/Classes.antt =====
-- src/types/SysVClass.h and the merge of src/types/SysVClassify.cpp: register classes of the System V
-- convention. A `Classification` holds its two eightbytes as a pair; only the first `count` of them
-- are read, and the code never makes a count above 2.
pub mod Merge
use trans.Prelude.{
  ℕ, zero, suc, ◌+◌, Bool, true, false, not, List, [], ◌∷◌, ltb, leb, ◌==◌, ◌&&◌, ◌||◌,
  if◌then◌else◌,
}
use trans.Abi.Words.{register_return_max_bytes}

pub data Class : Type 0 where
  no_class integer sse sse_up x87 x87_up complex_x87 memory : Class

pub Class-discrete : Discrete Class
Class-discrete = hlevel

-- `a == b` on the enumeration, by the places of its members.
abbrev pub place : Class → ℕ
place no_class = 0
place integer = 1
place sse = 2
place sse_up = 3
place x87 = 4
place x87_up = 5
place complex_x87 = 6
place memory = 7

infix 50 ◌=c◌
abbrev pub ◌=c◌ : Class → Class → Bool
a =c b = place a == place b

unfoldable pub is_integer : Class → Bool
is_integer k = k =c integer

unfoldable pub is_sse : Class → Bool
is_sse k = k =c sse || k =c sse_up

unfoldable pub is_x87 : Class → Bool
is_x87 k = k =c x87 || k =c x87_up || k =c complex_x87

pub data GprExtend : Type 0 where
  none sign zero_extend : GprExtend

pub record Classification : Type 0 where
  pub in_memory : Bool
  pub count : ℕ
  pub align_bytes : ℕ
  pub gpr_extend : GprExtend
  pub eightbyte0 : Class
  pub eightbyte1 : Class

-- The defaults of the structure's fields.
abbrev pub unclassified : Classification
unclassified = record {
  in_memory = false;
  count = 0;
  align_bytes = 8;
  gpr_extend = none;
  eightbyte0 = no_class;
  eightbyte1 = no_class;
}

-- The entries that a loop `for (i = 0; i < count; ++i)` visits.
abbrev pub first_of_two : ℕ → Class → Class → List Class
first_of_two zero a b = []
first_of_two (suc zero) a b = a ∷ []
first_of_two (suc (suc n)) a b = a ∷ b ∷ []

unfoldable pub eightbytes : Classification → List Class
eightbytes c = first_of_two c.count c.eightbyte0 c.eightbyte1

abbrev pub all_of : (Class → Bool) → List Class → Bool
all_of p [] = true
all_of p (k ∷ ks) = p k && all_of p ks

abbrev pub any_of : (Class → Bool) → List Class → Bool
any_of p [] = false
any_of p (k ∷ ks) = p k || any_of p ks

-- `n` counts up from the entries already seen.
abbrev pub count_of : (Class → Bool) → List Class → ℕ
count_of p [] = 0
count_of p (k ∷ ks) = (if p k then 1 else 0) + count_of p ks

unfoldable pub in_registers : Classification → Bool
unfolding is_integer is_sse eightbytes
in_registers c =
    if c.in_memory || leb c.count 0
    then false
    else all_of (λ k. not (not (is_integer k) && not (is_sse k))) (eightbytes c)

unfoldable pub has_x87 : Classification → Bool
unfolding is_x87 eightbytes
has_x87 c = any_of is_x87 (eightbytes c)

unfoldable pub integer_eightbytes : Classification → ℕ
unfolding is_integer eightbytes
integer_eightbytes c = count_of is_integer (eightbytes c)

unfoldable pub sse_eightbytes : Classification → ℕ
unfolding is_sse eightbytes
sse_eightbytes c = count_of is_sse (eightbytes c)

unfoldable pub scalar : Class → ℕ → Classification
scalar k size =
    if leb size 0
    then unclassified
    else (let c = record unclassified { align_bytes = if ltb 8 size then 8 else size } in
        if ltb 8 size
        then record c { in_memory = true }
        else record c { count = 1; eightbyte0 = k })

unfoldable pub integer_scalar : ℕ → Classification
unfolding scalar
integer_scalar size =
    let c = scalar integer size in
    if ltb 0 size && ltb size 8 then record c { gpr_extend = zero_extend } else c

unfoldable pub sse_scalar : ℕ → Classification
unfolding scalar
sse_scalar size = scalar sse size

unfoldable pub complex_class : ℕ → Classification
complex_class size =
    if size == 8
    then record unclassified { count = 1; eightbyte0 = sse; align_bytes = 4 }
    else if size == 16
    then record unclassified { count = 2; eightbyte0 = sse; eightbyte1 = sse; align_bytes = 8 }
    else if size == 32
    then record unclassified { count = 1; eightbyte0 = complex_x87; align_bytes = 16 }
    else unclassified

unfoldable pub is_complex_x87 : Classification → Bool
is_complex_x87 c = not c.in_memory && ltb 0 c.count && c.eightbyte0 =c complex_x87

unfoldable pub merge : Class → Class → Class
unfolding is_x87
merge a b =
    if a =c b
    then a
    else if a =c no_class
    then b
    else if b =c no_class
    then a
    else if a =c memory || b =c memory
    then memory
    else if a =c integer || b =c integer
    then integer
    else if is_x87 a || is_x87 b || a =c sse_up || b =c sse_up
    then memory
    else sse

-- The five assignments of the body in turn; the result is the pair (lo, hi).
unfoldable pub post_merge : ℕ → Class → Class → Class × Class
post_merge size lo hi =
    let lo1 = if hi =c memory then memory else lo in
    let lo2 = if hi =c x87_up && not (lo1 =c x87) then memory else lo1 in
    let lo3 =
      if ltb register_return_max_bytes size && not (lo2 =c sse && hi =c sse_up)
      then memory
      else lo2 in
    let hi1 = if hi =c sse_up && not (lo3 =c sse) then sse else hi in
    let hi2 = if lo3 =c memory then memory else hi1 in (lo3, hi2)
