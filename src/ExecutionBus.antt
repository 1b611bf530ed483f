-- ===== src/ExecutionBus.antt =====
-- The execution bus (trpc_service/execution_bus.py).
pub mod Envelope
pub mod Partitions
pub mod Consumer
pub mod Dispatcher
mod Tests
