-- ===== src/Scanner/Packed.antt =====
-- src/scanner/LexicalSession.h: the flags that attributes leave for the record or the typedef around them.
use trans.Prelude.{
  ◌≡◌, Bool, true, false, Option, none, some, List, [], ◌∷◌, ◌||◌, arith, if◌then◌else◌,
}

-- The flags of the open records, the innermost first.
pub record RecordPacked : Type 0 where
  pub stack : List Bool
  pub late : Bool
  pub after_struct_or_union : Bool
  pub just_completed : Bool

unfoldable pub note_struct_or_union_token : RecordPacked → RecordPacked
note_struct_or_union_token p = record p { after_struct_or_union = true }

unfoldable pub begin_record : RecordPacked → RecordPacked
begin_record p = record {
  stack = p.late ∷ p.stack;
  late = false;
  after_struct_or_union = false;
  just_completed = false;
}

abbrev set_top : List Bool → List Bool
set_top [] = []
set_top (b ∷ rest) = true ∷ rest

unfoldable pub note_packed : RecordPacked → RecordPacked
note_packed p =
    if p.after_struct_or_union || p.just_completed
    then record p { late = true }
    else record p { stack = set_top p.stack }

-- With no open record the code reads the top of an empty stack: `none`.
unfoldable pub consume_packed : RecordPacked → Option (RecordPacked × Bool)
consume_packed p = elim p.stack [
  | [] ↦ none
  | b ∷ rest ↦ some (record p { stack = rest; just_completed = true }, b)
]

abbrev rest_of : List Bool → List Bool
rest_of [] = []
rest_of (b ∷ rest) = rest

unfoldable pub abandon_record : RecordPacked → RecordPacked
abandon_record p = record p {
  stack = rest_of p.stack;
  just_completed = false;
  after_struct_or_union = false;
}

unfoldable pub take_late_packed : RecordPacked → RecordPacked × Bool
take_late_packed p = (record p { late = false }, p.late)

unfoldable pub note_transparent_union : Bool → Bool
note_transparent_union pending = true

unfoldable pub consume_transparent_union : Bool → Bool × Bool
consume_transparent_union pending = (false, pending)

unfoldable pub discard_transparent_union : Bool → Bool
discard_transparent_union pending = false

-- A record that is begun is packed if an attribute came late before it, or comes inside it.
packed_inside :
    (p q : RecordPacked) (b : Bool)
    → consume_packed (note_packed (begin_record p)) ≡ some (q, b)
    → (b ≡ true) × (q.stack ≡ p.stack)
unfolding consume_packed note_packed begin_record
packed_inside p q b e = ground arith

packed_late :
    (p q : RecordPacked) (b : Bool)
    → consume_packed (begin_record p) ≡ some (q, b)
    → (b ≡ p.late) × (q.stack ≡ p.stack)
unfolding consume_packed begin_record
packed_late p q b e = ground arith
