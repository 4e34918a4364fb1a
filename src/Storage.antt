-- ===== src/Storage.antt =====
-- pkg/storage: the records of stored artifacts.
pub mod Types
pub mod Artifacts
