-- ===== src/Atlas.antt =====
-- The Atlas control plane (src/nexus/atlas): contracts, lifecycle, policy, storage, commands.
pub mod Models
pub mod Errors
pub mod Capabilities
pub mod StateMachine
pub mod Validate
pub mod Policy
pub mod Storage
pub mod Service
mod Examples
