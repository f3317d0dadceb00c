-- ===== src/Jobs.antt =====
-- chipchamp/jobs
pub mod Checkpoint
pub mod Farm
pub mod Record
pub mod Regression
mod Examples
