-- ===== src/Runtime.antt =====
-- pkg/runtime: the session state machine, the repositories and the job workers.
pub mod Fsm
pub mod Types
pub mod Sessions
pub mod Messages
pub mod Retry
pub mod Expiry
pub mod ToolJob
pub mod GenerateJob
pub mod ArtifactJob
pub mod Users
pub mod Isolation
pub mod Worker
