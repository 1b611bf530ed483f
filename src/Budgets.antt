-- ===== src/Budgets.antt =====
-- Budgets: hard limits, the cost ledger and its settlement (trpc_service/budgets.py).
pub mod Schema
pub mod Pricing
pub mod Levels
pub mod Ledger
pub mod Reserve
pub mod Settle
pub mod Recovery
pub mod Reservations
pub mod Settlement
mod Tests
