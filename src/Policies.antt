-- ===== src/Policies.antt =====
-- Signed policy bundles (trpc_service/policy_bundles.py, trpc_service/governance.py).
pub mod Signing
pub mod Bundles
pub mod Activation
pub mod Governing
pub mod History
pub mod Interleaving
mod Tests
