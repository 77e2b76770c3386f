-- ===== src/Linking.antt =====
-- Candidate linking, src/evoeventmem/linking.py.
pub mod Types
pub mod Keys
pub mod Indexes
pub mod Pool
pub mod EntityPool
pub mod EventPool
pub mod Score
pub mod Generate
pub mod Recall
