-- ===== src/Scanner/Session/Braces.antt =====
-- src/scanner/LexicalSession.h: braces that match restore the scopes.
use trans.Prelude.{ℕ, ◌≡◌, refl, ◌∙◌, none, some, List, [], ◌∷◌}
use trans.Scanner.Tables.{
  IdentifierTable, ParseTypeTable, flush_shadows, enter_names, leave_names, enter_types,
  leave_types, add_typedef, add_identifier_shadow, add_pending_parameter_shadow, add_type,
  add_pending_type,
}
use trans.Scanner.Enums.{EnumConstantRegistry, enter_enums, leave_enums, open_body, add_enumerator}
use trans.Scanner.Session.{
  LexicalSession, BraceFrame, block, record_frame, enum_body, open_brace, close_brace, Call,
  run_call, typedef_call, shadow_call, pending_shadow_call, type_call, pending_type_call,
  enumerator_call, declarators_call, enter_block, leave_block, enter_record, leave_record,
  end_declarators,
}

-- The sessions before and after calls with matching braces.
pub data Balanced : LexicalSession → LexicalSession → Type 0 where
  done : {s : LexicalSession} → Balanced s s
  call : {s t : LexicalSession} (c : Call) → Balanced (run_call s c) t → Balanced s t
  braces :
      {s t u : LexicalSession} (kind : BraceFrame)
      → Balanced (open_brace s kind) t
      → Balanced (close_brace t) u
      → Balanced s u

-- The frames that are open, and the scopes outside the innermost, are the same.
pub record SameOutside (s t : LexicalSession) : Type 0 where
  pub frames : t.braces ≡ s.braces
  pub names : t.names.outer ≡ s.names.outer
  pub types : t.types.outer ≡ s.types.outer
  pub enums : t.enums.outer ≡ s.enums.outer

same : (s : LexicalSession) → SameOutside s s
same s = record { frames = refl; names = refl; types = refl; enums = refl }

SameOutside-trans : (s t u : LexicalSession) → SameOutside s t → SameOutside t u → SameOutside s u
SameOutside-trans s t u p q = record {
  frames = q.frames ∙ p.frames;
  names = q.names ∙ p.names;
  types = q.types ∙ p.types;
  enums = q.enums ∙ p.enums;
}

run_call-SameOutside : (s : LexicalSession) (c : Call) → SameOutside s (run_call s c)
unfolding run_call add_typedef add_identifier_shadow add_pending_parameter_shadow add_type
    add_pending_type add_enumerator end_declarators
run_call-SameOutside s (typedef_call none t) = same s
run_call-SameOutside s (typedef_call (some id) t) = record {
  frames = refl;
  names = refl;
  types = refl;
  enums = refl;
}
run_call-SameOutside s (shadow_call none) = same s
run_call-SameOutside s (shadow_call (some id)) = record {
  frames = refl;
  names = refl;
  types = refl;
  enums = refl;
}
run_call-SameOutside s (pending_shadow_call none) = same s
run_call-SameOutside s (pending_shadow_call (some id)) = record {
  frames = refl;
  names = refl;
  types = refl;
  enums = refl;
}
run_call-SameOutside s (type_call none t) = same s
run_call-SameOutside s (type_call (some id) t) = record {
  frames = refl;
  names = refl;
  types = refl;
  enums = refl;
}
run_call-SameOutside s (pending_type_call none t) = same s
run_call-SameOutside s (pending_type_call (some id) t) = record {
  frames = refl;
  names = refl;
  types = refl;
  enums = refl;
}
run_call-SameOutside s (enumerator_call none v) = same s
run_call-SameOutside s (enumerator_call (some id) v) = record {
  frames = refl;
  names = refl;
  types = refl;
  enums = refl;
}
run_call-SameOutside s declarators_call = record {
  frames = refl;
  names = refl;
  types = refl;
  enums = refl;
}

flush-outer : (ids : List ℕ) (t : IdentifierTable) → (flush_shadows t ids).outer ≡ t.outer
flush-outer [] t = refl
flush-outer (id ∷ ids) t = flush-outer ids _

leave_names_lem :
    (t u : IdentifierTable)
    → u.outer ≡ (enter_names t).outer
    → ((leave_names u).innermost ≡ t.innermost) × ((leave_names u).outer ≡ t.outer)
unfolding enter_names leave_names
leave_names_lem t u e =
    let all : u.outer ≡ t.innermost ∷ t.outer = e ∙ flush-outer t.pending_shadows _ in
    rw (all, leave_names) (refl, refl)

leave_types_lem :
    (t u : ParseTypeTable)
    → u.outer ≡ (enter_types t).outer
    → ((leave_types u).innermost ≡ t.innermost) × ((leave_types u).outer ≡ t.outer)
unfolding enter_types leave_types
leave_types_lem t u e = rw (e, leave_types) (refl, refl)

leave_enums_lem :
    (t u : EnumConstantRegistry)
    → u.outer ≡ (enter_enums t).outer
    → ((leave_enums u).innermost ≡ t.innermost) × ((leave_enums u).outer ≡ t.outer)
unfolding enter_enums leave_enums
leave_enums_lem t u e = rw (e, leave_enums) (refl, refl)

-- The scopes of a frame's tables, the innermost included, and the open frames are the same.
pub record Restored (s t : LexicalSession) : Type 0 where
  pub outside : SameOutside s t
  pub names : t.names.innermost ≡ s.names.innermost
  pub types : t.types.innermost ≡ s.types.innermost

frames_of : (s : LexicalSession) (kind : BraceFrame) → (open_brace s kind).braces ≡ kind ∷ s.braces
unfolding open_brace enter_block enter_record
frames_of s block = refl
frames_of s record_frame = refl
frames_of s enum_body = refl

block-Restored :
    (s t : LexicalSession)
    → SameOutside (open_brace s block) t
    → Restored s (close_brace t) × ((close_brace t).enums.innermost ≡ s.enums.innermost)
unfolding open_brace enter_block leave_block close_brace
block-Restored s t o =
    let n = leave_names_lem s.names t.names o.names in
    let y = leave_types_lem s.types t.types o.types in
    let e = leave_enums_lem s.enums t.enums o.enums in
    rw (o.frames, close_brace)
      (
        record {
          outside = record { frames = refl; names = n.1; types = y.1; enums = e.1 };
          names = n.0;
          types = y.0;
        },
        e.0,
      )

record_frame-Restored :
    (s t : LexicalSession) → SameOutside (open_brace s record_frame) t → Restored s (close_brace t)
unfolding open_brace enter_record leave_record close_brace
record_frame-Restored s t o =
    let n = leave_names_lem s.names t.names o.names in
    let y = leave_types_lem s.types t.types o.types in
    rw (o.frames, close_brace)
      (record {
        outside = record { frames = refl; names = n.1; types = y.1; enums = o.enums };
        names = n.0;
        types = y.0;
      })

enum_body-SameOutside :
    (s t : LexicalSession) → SameOutside (open_brace s enum_body) t → SameOutside s (close_brace t)
unfolding open_brace open_body close_brace
enum_body-SameOutside s t o =
    rw (o.frames, close_brace)
      (record { frames = refl; names = o.names; types = o.types; enums = o.enums })

close-SameOutside :
    (kind : BraceFrame) (s t : LexicalSession)
    → SameOutside (open_brace s kind) t
    → SameOutside s (close_brace t)
close-SameOutside block s t o = (block-Restored s t o).0.outside
close-SameOutside record_frame s t o = (record_frame-Restored s t o).outside
close-SameOutside enum_body s t o = enum_body-SameOutside s t o

Balanced-SameOutside : {s t : LexicalSession} → Balanced s t → SameOutside s t
Balanced-SameOutside (done {s}) = same s
Balanced-SameOutside (call {s} {t} c b) =
    SameOutside-trans s (run_call s c) t (run_call-SameOutside s c) (Balanced-SameOutside b)
Balanced-SameOutside (braces {s} {t} {u} kind b c) =
    SameOutside-trans s (close_brace t) u (close-SameOutside kind s t (Balanced-SameOutside b))
      (Balanced-SameOutside c)

-- After a block whose braces match, the scopes of names, types and enumerators and the open frames
-- are those before it.
pub block_restores :
    (s t : LexicalSession)
    → Balanced (open_brace s block) t
    → Restored s (close_brace t) × ((close_brace t).enums.innermost ≡ s.enums.innermost)
block_restores s t b = block-Restored s t (Balanced-SameOutside b)

-- After a record whose braces match, the scopes of names and types, the outer scopes of enumerators
-- and the open frames are those before it.
pub record_restores :
    (s t : LexicalSession) → Balanced (open_brace s record_frame) t → Restored s (close_brace t)
record_restores s t b = record_frame-Restored s t (Balanced-SameOutside b)
