-- ===== src/Async.antt =====
-- The asynchronous repository in memory (src/evoeventmem/infra/async_in_memory_repository.py) and the
-- service over it (src/evoeventmem/services/async_memory_service.py).
pub mod Types
pub mod Port
pub mod Store
pub mod Service
