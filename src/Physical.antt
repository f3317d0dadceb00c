-- ===== src/Physical.antt =====
-- chipchamp/physical
pub mod Sweep
mod Examples
