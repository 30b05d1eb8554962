-- ===== src/Scanner.antt =====
-- src/scanner: the names of a file and the tables that the scanner keeps of them while it reads.
pub mod Intern
pub mod Tables
pub mod Enums
pub mod Packed
pub mod Session
mod Tests
