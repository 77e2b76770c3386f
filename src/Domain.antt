-- ===== src/Domain.antt =====
-- The data model of src/evoeventmem/domain/models.py.
pub mod Text
pub mod Value
pub mod Models
pub mod Order
