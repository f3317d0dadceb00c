-- ===== src/Coverage.antt =====
-- chipchamp/coverage
pub mod Model
pub mod Service
pub mod Impact
mod Examples
