-- ===== src/Atlas/Service.antt =====
-- AtlasControlPlane of atlas/service.py. A command reads the store and makes a plan; the plan is
-- then committed by the store. Other control planes on the same file may commit in between.
pub mod Requests
pub mod Change
pub mod Execution
pub mod Review
pub mod Bodies
pub mod Plans
pub mod Steps
pub mod Pending
pub mod Runs
