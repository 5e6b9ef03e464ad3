-- ===== src/Ca.antt =====
-- pkg/ca: serial numbers, profiles, the policy engine with its lints, and the authority.
pub mod Types
pub mod Serial
pub mod Profile
pub mod Policy
pub mod Lint
pub mod Authority
pub mod Hierarchy
pub mod KeyStore
