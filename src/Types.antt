-- ===== src/Types.antt =====
-- src/types: the C types of the compiler, their layout and the conversions between them.
pub mod Primitive
pub mod CType
pub mod Query
pub mod Compatibility
pub mod Operator
pub mod Expressions
pub mod Assignment
pub mod GenericSelection
pub mod Nesting
pub mod Layout
pub mod Classify
pub mod IntegerConstant
pub mod IntegerLiteral
mod Tests
mod ConstantTests
