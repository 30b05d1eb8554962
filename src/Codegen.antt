-- ===== src/Codegen.antt =====
-- src/codegen: the instructions of the intermediate form and the passes over a procedure's blocks.
pub mod Instruction
pub mod SymbolRefs
pub mod Frame
pub mod Cfg
pub mod Run
pub mod Liveness
mod Tests
mod FrameTests
mod LivenessTests
