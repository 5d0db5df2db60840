-- ===== src/PatchForge.antt =====
-- PatchForge of src/nexus/patchforge: bounded runs of a patching agent.
pub mod Models
pub mod Policy
pub mod Paths
pub mod Lifecycle
pub mod Tools
pub mod Gateway
pub mod Invoke
pub mod Spending
pub mod Reserve
pub mod RunState
pub mod Runtime
pub mod Evidence
pub mod Results
pub mod Usage
mod Examples
mod Proposed
