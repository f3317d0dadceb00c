-- ===== src/Waves.antt =====
-- chipchamp/waves
pub mod Vcd
pub mod Bisect
pub mod Store
pub mod Compare
pub mod When
mod Examples
