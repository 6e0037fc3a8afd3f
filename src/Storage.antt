-- ===== src/Storage.antt =====
-- The object store: src/dsvire/object_store.py.
pub mod Keys
pub mod Segments
pub mod Paths
pub mod Local
pub mod Integrity
