-- ===== src/Repository.antt =====
-- The repository: its interface, and the implementation in memory.
pub mod Port
pub mod InMemory
