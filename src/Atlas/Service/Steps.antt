-- ===== src/Atlas/Service/Steps.antt =====
-- What each method does to the job that it is given.
pub mod Proper
pub mod Moves
pub mod Authority
