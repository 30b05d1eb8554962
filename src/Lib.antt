-- ===== src/Lib.antt =====
-- A model of parts of `trans`, a C compiler written in C++, and theorems about it.
--
-- The compiler scans and parses C (src/scanner, src/parser, src/ast), analyses the tree
-- (src/semantic_analyzer), generates an intermediate form, runs passes over it and emits amd64
-- assembly (src/codegen). The analysis and the generator share the C types of src/types and the
-- calling convention of src/types/SysVClass.h, SysVClassify.cpp and src/codegen/SysVCallConv.h.
--
-- Abi: sizes in words, alignment and frames (Abi.Words, src/types/ObjectAbi.h), the classes of
--   eightbytes (Abi.Classes, src/types/SysVClass.h and the merging of SysVClassify.cpp), and the
--   registers and stack slots of arguments (Abi.CallConv, src/codegen/SysVCallConv.h).
-- Types: primitive kinds (Types.Primitive, src/types/Primitive.cpp), types and records
--   (Types.CType, src/types/Type.h, Type.cpp and TypeRecords.cpp), conversions and result types
--   (Types.Query, Types.Expressions, Types.Assignment and Types.GenericSelection,
--   src/types/TypeQuery.h and TypeQuery.cpp), compatible types (Types.Compatibility,
--   src/types/TypeCompatibility.cpp), the layout of structures and unions (Types.Layout and
--   Types.Layout.Record, src/types/TypeLayout.cpp and TypeConstraint.h), and the classification of a
--   type for calls (Types.Classify, src/types/SysVClassify.cpp), which uses the layout and the classes
--   of Abi; the operators and their spellings (Types.Operator, src/types/Operator.h and Operator.cpp),
--   the text of literals (Types.IntegerLiteral, src/util/IntegerLiteral.h), and integer constants, their
--   conversion and the folding of operators on them (Types.IntegerConstant and its children Ranked and
--   Fold, src/types/IntegerConstant.h and IntegerConstant.cpp).
-- Codegen: instructions (Codegen.Instruction, src/codegen/Instruction.h and Instruction.cpp), the
--   symbols each names (Codegen.SymbolRefs, src/codegen/SymbolRefs.cpp), blocks and the passes over
--   them (Codegen.Cfg, src/codegen/Cfg.cpp), and the words of the frame (Codegen.Frame,
--   src/codegen/FrameLayout.cpp), and the values that are live at each place (Codegen.Liveness, with the
--   sets of bits in its child Sets, the sets of a body in Procedure and the answers for the passes in
--   Answers, src/codegen/Liveness.h and Liveness.cpp). Codegen.Run says what a graph of blocks does: the events that its
--   runs show, whatever the conditions evaluate to; the passes are compared by their runs.
-- Scanner: the numbers of names (Scanner.Intern, src/scanner/NameIntern.h and NameIntern.cpp), the
--   scopes of names and types (Scanner.Tables, src/scanner/IdentifierTable.cpp and ParseTypeTable.cpp),
--   the enumerators, their scopes and the bodies of enumerations (Scanner.Enums,
--   src/scanner/EnumConstantRegistry.h and EnumConstantRegistry.cpp), which use the constants of Types,
--   the flags of attributes (Scanner.Packed) and the braces that open and close scopes (Scanner.Session,
--   both src/scanner/LexicalSession.h).
-- Prelude: shared names, Boolean tests on native numbers, lists and integers.
--
-- A definition has the name of the function it models, in lower case with underscores. Sizes and
-- offsets, which the callers keep from being negative, are numbers; where the source tests a size
-- against the largest `int`, so does the model. An id that may be `kNoSymbol` is an optional number.
-- A shared record body is an entry of a heap, and completing it gives a new heap. A message of an
-- error is a value of `LayoutError`; an internal error of the compiler is `false` or `none`.
--
-- The packing of a frame goes by the order of the instructions in the text and does not follow jumps,
-- as in the source. A temporary that is moved out of a loop (src/codegen/Licm.cpp) loses its mark as
-- one there, so that it is pinned.
--
-- Fuel: `type_alignment`, `classify_into` and `product_assign_from` take fuel for records within
-- records; it is enough where records nest no deeper. The rounds of `eliminate_jump_to_next` take
-- one more than the number of instructions, the search of
-- `eliminate_unreachable` one more than the number of blocks, and `final_target` one more than the
-- number of trampolines, and `solve_from` one more than the bits of its sets: each is enough, since
-- a round drops an instruction, a step of the search takes a block off that was marked once, a step
-- of the chain sees a new label, and a round that changes the sets adds a bit.
--
-- The 128 bits of a constant are a number below 2 ^ 128, read as a signed integer by `signed_bits`. Where
-- the source computes on `__int128` out of its range, the cast of the exact result stands for it.
--
-- Not modelled: the automaton of the scanner, parsing and the grammar's tables, the syntax tree and
-- its analysis, the generation of the intermediate form, its loops and other passes, and the emission
-- of assembly; in the parts modelled, the spelling of types and of messages, the names of homes and
-- lookups of members.
pub mod Prelude
pub mod Abi
pub mod Types
pub mod Codegen
pub mod Scanner
