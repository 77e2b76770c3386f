-- ===== src/Etec.antt =====
-- ETEC consolidation (src/evoeventmem/consolidation.py) and the set functions of
-- src/evoeventmem/core/math_utils.py.
pub mod Math
pub mod Types
pub mod Keys
pub mod Times
pub mod Features
pub mod Score
pub mod Select
pub mod Copy
pub mod Targets
pub mod Pairs
pub mod Supersede
pub mod Apply
