-- ===== src/Tools.antt =====
-- pkg/tools: tools and their kinds, the registry, the gate for human approval and the audit log.
pub mod Types
pub mod Registry
pub mod Guards
pub mod Generators
