-- ===== src/Scanner/Intern.antt =====
-- src/scanner/NameIntern.h and NameIntern.cpp: the numbers of names. `none` stands for `kNoName`, and the
-- size of the table is below 2 ^ 31, so that it is an `int`.
use Prim.Native.String.{String}
use text.Mathlib.Text.{◌==◌}
use text.Mathlib.TextEquality.{eq_iff}
use trans.Prelude.{
  ℕ, ◌<◌, ◌≡◌, ◌≢◌, refl, sym, ◌∙◌, ◌⊎◌, inl, inr, Option-cases, false, Option, none, some, List,
  [], ◌∷◌, ◌++◌, length, if◌then◌else◌, arith, length-append,
}

abbrev pub NameIntern : Type 0
NameIntern = List (String × ℕ)

-- The search in the table.
abbrev pub entry : NameIntern → String → Option ℕ
entry [] text = none
entry ((name, id) ∷ rest) text = if name == text then some id else entry rest text

unfoldable pub find : NameIntern → String → Option ℕ
find index text = if text == "" then none else entry index text

-- The number of a new name is the size of the table.
unfoldable pub intern : NameIntern → String → NameIntern × Option ℕ
intern index text = if text == "" then (index, none) else elim (entry index text) [
  | some id ↦ (index, some id)
  | none ↦ (index ++ (text, length index) ∷ [], some (length index))
]

-- Every number is below the size of the table, and no two names have the same one.
pub record IsTable (index : NameIntern) : Type 0 where
  pub below : (text : String) (id : ℕ) → entry index text ≡ some id → id < length index
  pub apart : (a b : String) (id : ℕ) → entry index a ≡ some id → entry index b ≡ some id → a ≡ b

entry-append :
    (index : NameIntern) (name text : String) (id : ℕ)
    → entry (index ++ (name, id) ∷ []) text
      ≡ elim (entry index text) [ some i ↦ some i | none ↦ if name == text then some id else none ]
entry-append [] name text id = refl
entry-append ((other, i) ∷ rest) name text id = ground (arith, entry-append rest name text id)

entry-new :
    (index : NameIntern) (name : String)
    → entry index name ≡ none
    → entry (index ++ (name, length index) ∷ []) name ≡ some (length index)
entry-new index name e =
    ground (arith, entry-append index name name (length index), eq_iff name name)

entry-old :
    (index : NameIntern) (name text : String) (n id : ℕ)
    → entry index text ≡ some id
    → entry (index ++ (name, n) ∷ []) text ≡ some id
entry-old index name text n id e = ground (arith, entry-append index name text n)

entry-either :
    (index : NameIntern) (name text : String) (n id : ℕ)
    → entry (index ++ (name, n) ∷ []) text ≡ some id
    → (entry index text ≡ some id) ⊎ ((name ≡ text) × (id ≡ n))
entry-either index name text n id e = elim (Option-cases (entry index text)) [
  | inl o ↦ inr (ground (arith, entry-append index name text n, eq_iff name text))
  | inr (i, o) ↦ inl (ground (arith, entry-append index name text n))
]

append-IsTable :
    (index : NameIntern) (name : String)
    → IsTable index
    → entry index name ≡ none
    → IsTable (index ++ (name, length index) ∷ [])
append-IsTable index name t e = record {
  below = λ text id h.
      let l = length-append index ((name, length index) ∷ []) in
      elim (entry-either index name text (length index) id h) [
        | inl o ↦ omega (arith, l, t.below text id o)
        | inr p ↦ omega (arith, l, p.1)
      ];
  apart = λ a b id h k. elim (entry-either index name a (length index) id h) [
    | inl o ↦ elim (entry-either index name b (length index) id k) [
      | inl p ↦ t.apart a b id o p
      | inr p ↦ absurd (omega (arith, t.below a id o, p.1))
    ]
    | inr p ↦ elim (entry-either index name b (length index) id k) [
      | inl o ↦ absurd (omega (arith, t.below b id o, p.1))
      | inr o ↦ sym p.0 ∙ o.0
    ]
  ];
}

-- What interning a name promises of the table before and after, and of the number.
pub record Interned (before after : NameIntern) (name : String) (id : Option ℕ) : Type 0 where
  pub table : IsTable after
  pub found : find after name ≡ id
  pub number : id ≢ none
  pub kept : (text : String) (n : ℕ) → find before text ≡ some n → find after text ≡ some n

-- Interning a name that is not empty leaves a table where no two names share a number, gives a number,
-- which is found for the name afterwards, and every name keeps the number that it had.
pub intern_lem :
    (index : NameIntern) (name : String)
    → IsTable index
    → name ≢ ""
    → Interned index (intern index name).0 name (intern index name).1
unfolding intern find
intern_lem index name t e =
    let n : (name == "") ≡ false = ground (arith, eq_iff name "") in
    elim (Option-cases (entry index name)) [
      | inl o ↦
          rw (n, o)
            (record {
              table = append-IsTable index name t o;
              found = rw n (entry-new index name o);
              number = λ h. cc;
              kept = λ text m h. ground (arith, entry-old index name text (length index) m);
            })
      | inr (i, o) ↦
          rw (n, o) (record { table = t; found = rw n o; number = λ h. cc; kept = λ text m h. h })
    ]
