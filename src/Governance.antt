-- ===== src/Governance.antt =====
-- Data classification, content screening and masking (trpc_service/governance.py).
pub mod Rules
pub mod Outbound
pub mod Screening
pub mod Verdicts
mod Tests
