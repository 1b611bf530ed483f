-- ===== src/ToolRuntime.antt =====
-- Governed tool invocations (trpc_service/tool/executor.py).
pub mod Contract
pub mod Registry
pub mod Gate
pub mod Invocation
mod Tests
