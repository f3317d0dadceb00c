-- ===== src/Agent.antt =====
-- chipchamp/agent
pub mod Digest
pub mod Retry
pub mod Router
pub mod Runs
pub mod Session
pub mod Tracker
pub mod Transcript
pub mod WorkingSet
mod Examples
mod Turns
