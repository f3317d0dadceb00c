-- ===== src/Policy.antt =====
-- chipchamp/policy
pub mod Budgets
pub mod Canonical
pub mod Acl
pub mod Autonomy
pub mod Diff
pub mod Classify
pub mod Gates
pub mod Antigaming
pub mod Engine
pub mod Waivers
