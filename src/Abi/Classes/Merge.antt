-- ===== src/Abi/Classes/Merge.antt =====
-- src/types/SysVClassify.cpp: laws of `merge` and `postMerge`.
use trans.Prelude.{ℕ, ◌<◌, ◌≡◌, ◌⊎◌, ◌↔◌, arith}
use trans.Abi.Classes.{
  Class, no_class, integer, sse, sse_up, x87, x87_up, memory, merge, post_merge,
}

pub merge_comm : (a b : Class) → merge a b ≡ merge b a
unfolding merge
merge_comm a b = ground arith

-- The classes that scalars other than `long double` have, and the class of memory.
abbrev pub IsPlain : Class → Type 0
IsPlain no_class = Unit
IsPlain integer = Unit
IsPlain sse = Unit
IsPlain memory = Unit
IsPlain _ = ⊥

merge-IsPlain : (a b : Class) → IsPlain a → IsPlain b → IsPlain (merge a b)
unfolding merge
merge-IsPlain a b p q = ground arith

-- Merging is commutative and idempotent, `NoClass` is its unit, and MEMORY absorbs every class.
pub merge_laws :
    (a b : Class)
    → (merge a b ≡ merge b a) × (merge a a ≡ a) × (merge no_class a ≡ a) × (merge memory a ≡ memory)
unfolding merge
merge_laws a b = ground arith

-- On the classes `NoClass`, INTEGER, SSE and MEMORY merging is associative.
merge_assoc :
    (a b c : Class) → IsPlain a → IsPlain b → IsPlain c → merge (merge a b) c ≡ merge a (merge b c)
unfolding merge
merge_assoc a b c p q r = ground arith

-- What `postMerge` promises of its result (lo, hi).
pub record IsMerged (size : ℕ) (lo hi : Class) : Type 0 where
  pub both_memory : (lo ≡ memory) ↔ (hi ≡ memory)
  pub x87_pair : hi ≡ x87_up → lo ≡ x87
  pub sse_pair : hi ≡ sse_up → lo ≡ sse
  pub large : 16 < size → (lo ≡ memory) ⊎ (lo ≡ sse) × (hi ≡ sse_up)

-- After `postMerge` MEMORY takes both eightbytes or none, X87UP follows X87, SSEUP follows SSE, and
-- an object of more than 16 bytes is in memory unless it is SSE followed by SSEUP.
pub post_merge-IsMerged :
    (size : ℕ) (lo hi : Class) → IsMerged size (post_merge size lo hi).0 (post_merge size lo hi).1
unfolding post_merge
post_merge-IsMerged size lo hi = ground arith
