-- ===== src/Tools.antt =====
-- chipchamp/tools
pub mod Paths
mod Examples
