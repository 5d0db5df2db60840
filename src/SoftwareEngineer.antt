-- ===== src/SoftwareEngineer.antt =====
-- The resident Software Engineer of src/nexus/software_engineer: its contracts, its ship policy and
-- its risk classification.
pub mod Models
pub mod Tests
pub mod Policy
pub mod Record
pub mod Paths
pub mod Risk
mod Examples
mod Cycles
