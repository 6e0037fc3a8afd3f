-- ===== src/Retrieval.antt =====
-- Retrieval over a pack of regions: src/dsvire/hybrid_query.py.
pub mod Ranking
pub mod Cascade
pub mod Sorting
pub mod Rescoring
pub mod Hits
