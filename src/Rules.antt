-- ===== src/Rules.antt =====
-- src/evoeventmem/services/memory_rules.py and the request scope of src/evoeventmem/core/ports.py.
pub mod Identity
pub mod Scope
pub mod Events
