-- ===== src/Approvals.antt =====
-- Durable tool approvals (trpc_service/tool/approvals.py).
pub mod Store
pub mod Service
pub mod Decisions
pub mod Moves
pub mod History
mod Tests
