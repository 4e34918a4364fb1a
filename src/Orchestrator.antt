-- ===== src/Orchestrator.antt =====
-- pkg/orchestrator: the handlers of the tiers L0, L1 and L2, their choice, and the HTTP endpoint.
pub mod Parts
pub mod SingleShot
pub mod Grounded
pub mod Queued
pub mod Dispatch
pub mod Endpoint
mod Tests
