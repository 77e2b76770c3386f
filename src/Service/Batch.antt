-- ===== src/Service/Batch.antt =====
-- `write_extracted_events` of `MemoryService`: a request of candidates is written as a whole or not at all.
pub mod Types
pub mod Prepare
pub mod Collisions
pub mod Sorting
pub mod Run
pub mod Counts
pub mod Atomic
