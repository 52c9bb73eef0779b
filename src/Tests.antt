-- ===== src/Tests.antt =====
-- The theorems at concrete devices, and runs of the operations.
pub mod Values
pub mod Coder
pub mod Witnesses
pub mod Log
pub mod Names
pub mod Bytes
pub mod Moves
pub mod Runs
