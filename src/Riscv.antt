-- ===== src/Riscv.antt =====
-- chipchamp/riscv
pub mod Trace
mod Examples
