-- ===== src/Scanner/Enums/Scopes.antt =====
-- src/scanner/EnumConstantRegistry.cpp: the chain of scopes behaves as one environment, which is saved
-- when a scope is entered and restored when it is left.
use mathlib.Core.Path.{fun_ext}
use trans.Prelude.{ℕ, ◌≡◌, refl, Option, some, List, [], ◌∷◌, ap, ◌∙◌, ◌==◌, if◌then◌else◌, arith}
use trans.Types.IntegerConstant.{IntegerConstant}
use trans.Scanner.Tables.{Entries, find_entry, put, find_scope}
use trans.Scanner.Enums.{
  OpenEnumBody, EnumConstantRegistry, add_enumerator, lookup_enumerator, enter_enums, leave_enums,
}

-- The environment, and those saved at the scopes that are open.
pub record Environment : Type 0 where
  pub current : ℕ → Option IntegerConstant
  pub saved : List (ℕ → Option IntegerConstant)

pub data ScopeCall : Type 0 where
  add : ℕ → IntegerConstant → ScopeCall
  enter leave : ScopeCall

abbrev pub bind : (ℕ → Option IntegerConstant) → ℕ → IntegerConstant → ℕ → Option IntegerConstant
bind env id value n = if id == n then some value else env n

pub specified : Environment → ScopeCall → Environment
specified e (add id value) = record e { current = bind e.current id value }
specified e enter = record e { saved = e.current ∷ e.saved }
specified e leave = elim e.saved [ [] ↦ e | c ∷ rest ↦ record { current = c; saved = rest } ]

pub performed : EnumConstantRegistry → ScopeCall → EnumConstantRegistry
performed t (add id value) = add_enumerator t (some id) value
performed t enter = enter_enums t
performed t leave = leave_enums t

abbrev pub after {ℓ} : {S : Type ℓ} → (S → ScopeCall → S) → S → List ScopeCall → S
after step s [] = s
after step s (c ∷ calls) = after step (step s c) calls

abbrev environments : List (Entries IntegerConstant) → List (ℕ → Option IntegerConstant)
environments [] = []
environments (s ∷ rest) = find_scope (s ∷ rest) ∷ environments rest

-- What the scopes of a registry stand for.
abbrev pub environment : EnumConstantRegistry → Environment
environment t = record {
  current = find_scope (t.innermost ∷ t.outer);
  saved = environments t.outer;
}

find_entry-put :
    (entries : Entries IntegerConstant) (id n : ℕ) (value : IntegerConstant)
    → find_entry (put entries id value) n ≡ (if id == n then some value else find_entry entries n)
find_entry-put [] id n value = refl
find_entry-put ((key, b) ∷ rest) id n value = ground (arith, find_entry-put rest id n value)

find_scope-put :
    (s : Entries IntegerConstant) (rest : List (Entries IntegerConstant)) (id n : ℕ)
    (value : IntegerConstant)
    → find_scope (put s id value ∷ rest) n ≡ bind (find_scope (s ∷ rest)) id value n
find_scope-put s rest id n value = rw (find_scope, find_entry-put s id n value) (ground arith)

left-environment :
    (i : Entries IntegerConstant) (o : List (Entries IntegerConstant)) (b : List OpenEnumBody)
    → let t : EnumConstantRegistry = record { innermost = i; outer = o; bodies = b } in
      environment (leave_enums t) ≡ specified (environment t) leave
unfolding specified leave_enums
left-environment i [] b = refl
left-environment i (s ∷ rest) b = refl

performed-environment :
    (t : EnumConstantRegistry) (c : ScopeCall)
    → environment (performed t c) ≡ specified (environment t) c
unfolding performed specified add_enumerator enter_enums leave_enums
performed-environment t (add id value) =
    ap (λ f. record { current = f; saved = environments t.outer })
      (fun_ext λ n. find_scope-put t.innermost t.outer id n value)
performed-environment t enter = refl
performed-environment t leave = left-environment t.innermost t.outer t.bodies

after-environment :
    (t : EnumConstantRegistry) (calls : List ScopeCall)
    → environment (after performed t calls) ≡ after specified (environment t) calls
after-environment t [] = refl
after-environment t (c ∷ calls) =
    after-environment (performed t c) calls
    ∙ ap (λ e. after specified e calls) (performed-environment t c)

-- After any calls that add enumerators, enter and leave scopes, a lookup finds what the specification
-- has in its environment after the same calls: the last value added to a name in the scopes still open,
-- and in a scope that is left nothing remains of what it added.
pub lookup_enumerator-refines :
    (t : EnumConstantRegistry) (calls : List ScopeCall) (id : ℕ)
    → lookup_enumerator (after performed t calls) (some id)
      ≡ (after specified (environment t) calls).current id
unfolding lookup_enumerator
lookup_enumerator-refines t calls id = ap (λ e. e.current id) (after-environment t calls)
