-- ===== src/Tests.antt =====
-- Sample data, and the theorems at concrete inputs.
pub mod Samples
pub mod Records
pub mod Services
pub mod Consolidation
pub mod Async
pub mod Linking
pub mod Retrieval
pub mod Failures
pub mod Router
