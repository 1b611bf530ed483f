-- ===== src/Sessions.antt =====
-- Sessions: leases with fencing tokens, and the authoritative commit (trpc_service/sessions.py).
pub mod Schema
pub mod Lease
pub mod Commit
pub mod History
pub mod Consistency
mod Tests
