-- ===== src/Worker.antt =====
-- The lease worker: src/dsvire/platform_worker.py and the parent's side of src/dsvire/worker.py.
pub mod Job
pub mod Lease
pub mod Verdicts
pub mod Settling
pub mod Reports
