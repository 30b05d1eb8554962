-- ===== src/Codegen/Cfg/Threading.antt =====
-- src/codegen/Cfg.cpp: the loop of `finalTarget` ends, and where it gets to.
use trans.Prelude.{
  ℕ, zero, suc, ◌≤◌, ◌<◌, ◌≡◌, refl, ap, subst, All, true, false, none, some, List, [], ◌∷◌, length,
  arith, Bool-cases, Option-cases, inl, inr, ◌⊎◌, ◌==◌, ==_iff, if◌then◌else◌,
}
use trans.Codegen.Cfg.{lookup, contains, follow, final_target}

-- From one label a chain of trampolines leads to the other.
pub data Leads (trampoline : List (ℕ × ℕ)) : ℕ → ℕ → Type 0 where
  here : {name : ℕ} → Leads trampoline name name
  hop :
      {name next target : ℕ}
      → lookup trampoline name ≡ some next
      → Leads trampoline next target
      → Leads trampoline name target

then_hop :
    (trampoline : List (ℕ × ℕ)) {name target next : ℕ}
    → Leads trampoline name target
    → lookup trampoline target ≡ some next
    → Leads trampoline name next
then_hop trampoline here e = hop e here
then_hop trampoline (hop f l) e = hop f (then_hop trampoline l e)

-- From a label a chain of trampolines leads into a cycle of trampolines.
pub record LeadsToCycle (trampoline : List (ℕ × ℕ)) (name : ℕ) : Type 0 where
  pub entry : ℕ
  pub next : ℕ
  pub reached : Leads trampoline name entry
  pub onward : lookup trampoline entry ≡ some next
  pub back : Leads trampoline next entry

-- The label is the start of a chain of one trampoline or more that leads to the other label.
abbrev Passed : List (ℕ × ℕ) → ℕ → ℕ → Type 0
Passed t target n = (next : ℕ) × (lookup t n ≡ some next) × Leads t next target

Passed-hop :
    (t : List (ℕ × ℕ)) (target next : ℕ)
    → lookup t target ≡ some next
    → (ns : List ℕ) → All (Passed t target) ns
    → All (Passed t next) ns
Passed-hop t target next e [] h = tt
Passed-hop t target next e (n ∷ ns) ((m, f, l), hs) =
    ((m, f, then_hop t l e), Passed-hop t target next e ns hs)

contains-Passed :
    (t : List (ℕ × ℕ)) (target n : ℕ) (ns : List ℕ)
    → contains ns n ≡ true
    → All (Passed t target) ns
    → Passed t target n
contains-Passed t target n [] c h = cc
contains-Passed t target n (m ∷ ns) c (h, hs) = elim (Bool-cases (m == n)) [
  | inl k ↦ subst (Passed t target) ((==_iff m n).0 k) h
  | inr k ↦ contains-Passed t target n ns (rw k at c) hs
]

-- The entries whose label has not been seen.
abbrev unseen : List (ℕ × ℕ) → List ℕ → ℕ
unseen [] seen = 0
unseen ((key, value) ∷ rest) seen =
    if contains seen key then unseen rest seen else suc (unseen rest seen)

unseen_le : (t : List (ℕ × ℕ)) (seen : List ℕ) (n : ℕ) → unseen t (n ∷ seen) ≤ unseen t seen
unseen_le [] seen n = omega arith
unseen_le ((key, value) ∷ rest) seen n = ground (arith, unseen_le rest seen n)

unseen_lt :
    (t : List (ℕ × ℕ)) (seen : List ℕ) (n m : ℕ)
    → contains seen n ≡ false
    → lookup t n ≡ some m
    → unseen t (n ∷ seen) < unseen t seen
unseen_lt [] seen n m c e = cc
unseen_lt ((key, value) ∷ rest) seen n m c e = elim (Bool-cases (key == n)) [
  | inl k ↦
      let same : key ≡ n = (==_iff key n).0 k in
      let here : (n == n) ≡ true = (==_iff n n).1 refl in
      rw (same, here, c) (ground (arith, unseen_le rest seen n))
  | inr k ↦
      let other : (n == key) ≡ false = ground arith in
      rw other (ground (arith, unseen_lt rest seen n m c (rw k at e)))
]

unseen_all : (t : List (ℕ × ℕ)) → unseen t [] ≡ length t
unseen_all [] = refl
unseen_all ((key, value) ∷ rest) = ap suc (unseen_all rest)

follow_lem :
    (t : List (ℕ × ℕ)) (fuel : ℕ) (seen : List ℕ) (name target : ℕ)
    → unseen t seen < fuel
    → Leads t name target
    → All (Passed t target) seen
    → (last : ℕ) × (follow t fuel seen name target ≡ some last)
      × Leads t name last
      × ((lookup t last ≡ none) ⊎ ((last ≡ name) × LeadsToCycle t name))
unfolding follow
follow_lem t zero seen name target h l p = ground arith
follow_lem t (suc fuel) seen name target h l p = elim (Option-cases (lookup t target)) [
  | inl e ↦ rw (e, follow) (target, refl, l, inl e)
  | inr (next, e) ↦ elim (Bool-cases (contains seen target)) [
    | inl c ↦
        let (after, onward, back) = contains-Passed t target target seen c p in
        rw (e, c, follow)
          (
            name,
            refl,
            here,
            inr (
              refl,
              record { entry = target; next = after; reached = l; onward = onward; back = back },
            ),
          )
    | inr c ↦
        rw (e, c, follow)
          (follow_lem t fuel (target ∷ seen) name next
            (omega (arith, unseen_lt t seen target next c e)) (then_hop t l e)
            ((next, e, here), Passed-hop t target next e seen p))
  ]
]

-- The loop ends: at a label that a chain of trampolines leads to and that is not one itself, or,
-- where the chain leads into a cycle of trampolines, at the label it began with.
pub final_target_lem :
    (t : List (ℕ × ℕ)) (name : ℕ)
    → (last : ℕ) × (final_target t name ≡ some last)
      × Leads t name last
      × ((lookup t last ≡ none) ⊎ ((last ≡ name) × LeadsToCycle t name))
unfolding final_target
final_target_lem t name =
    follow_lem t (suc (length t)) [] name name (omega (arith, unseen_all t)) here tt
