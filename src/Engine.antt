-- ===== src/Engine.antt =====
-- cpp/include/mm/engine.hpp and cpp/src/engine.cpp, the order engine.
pub mod Keys
pub mod Containers
pub mod Live
pub mod Ranges
pub mod Counts
pub mod Lookup
pub mod Invariant
pub mod State
pub mod Entry
pub mod Sweep
pub mod Teardown
pub mod Calls
pub mod Identity
pub mod Admission
pub mod Isolation
pub mod Fills
pub mod Reports
pub mod Tests
