-- ===== src/Retrieval.antt =====
-- Retrieval, src/evoeventmem/retrieval.py: the weights, the fusion of the
-- candidates of the sources, the classification, the reader input and the packing under a budget.
pub mod Types
pub mod Weights
pub mod Candidates
pub mod Sources
pub mod Temporal
pub mod Merge
pub mod Classify
pub mod Reader
pub mod Pack
