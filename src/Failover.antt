-- ===== src/Failover.antt =====
-- The global failover lease (trpc_service/failover.py, migration 0031).
pub mod Lease
pub mod Promotions
mod Tests
