-- ===== src/Service.antt =====
-- `MemoryService` of src/evoeventmem/services/memory_service.py.
pub mod Single
pub mod Batch
pub mod Search
