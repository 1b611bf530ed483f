-- ===== src/Storage.antt =====
-- Storage adapters and their erasure (trpc_service/storage.py).
pub mod Memory
pub mod Redis
pub mod Deletion
mod Tests
