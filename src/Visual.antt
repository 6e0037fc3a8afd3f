-- ===== src/Visual.antt =====
-- Selective verification of figures: src/dsvire/visual_metrics.py.
pub mod Cases
pub mod Policy
pub mod Leaks
pub mod Thresholds
pub mod Admitting
pub mod Freezing
pub mod Judging
