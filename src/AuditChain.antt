-- ===== src/AuditChain.antt =====
-- The per-tenant hash chain of the audit log (trpc_service/audit_chain/chain.py).
pub mod Chain
pub mod Appends
mod Tests
