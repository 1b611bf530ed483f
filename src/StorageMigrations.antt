-- ===== src/StorageMigrations.antt =====
-- Online storage profile migrations (trpc_service/storage_migration.py).
pub mod Machine
pub mod Evidence
pub mod Executor
pub mod Runs
mod Tests
