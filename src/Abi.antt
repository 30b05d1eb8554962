-- ===== src/Abi.antt =====
-- src/types/ObjectAbi.h, SysVClass.h, SysVClassify.cpp and src/codegen/SysVCallConv.h: word sizes,
-- register classes and where arguments go.
pub mod Words
pub mod Classes
pub mod CallConv
mod Tests
