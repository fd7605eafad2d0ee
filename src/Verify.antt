-- ===== src/Verify.antt =====
-- verify.go and the sealing half of prototype.go: the bytecode verifier.
pub mod Prototype
pub mod Checks
pub mod Words
pub mod Instructions
pub mod Flow
pub mod Seal
pub mod Roles
pub mod Sealed
pub mod DebugTables
mod Tests
