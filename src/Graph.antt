-- ===== src/Graph.antt =====
-- pkg/graph: workflow graphs, the registry that builds them and the engine that walks them.
pub mod Types
pub mod Engine
pub mod Registry
mod Tests
