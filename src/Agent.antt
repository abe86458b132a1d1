-- ===== src/Agent.antt =====
-- internal/core/agent: the agent of a node, which applies what the control plane wants of it.
pub mod Api
pub mod Host
pub mod Files
pub mod Store
pub mod Payload
pub mod Reconcile
pub mod Effects
pub mod Course
pub mod Fence
pub mod Backup
pub mod Rollback
pub mod Sums
pub mod Converged
pub mod Replay
