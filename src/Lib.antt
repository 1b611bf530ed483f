-- ===== src/Lib.antt =====
-- The core logic of trpc_service, a multi-tenant service that runs agents, as definitions that
-- compute and theorems about them.
--
-- The parts of the program and the files that model them:
--   - Sessions (trpc_service/sessions.py, with insert_outbox_record of trpc_service/execution_bus.py and
--     the tables of migration 0010): leases on a Session with a fencing token, and the commit of its
--     events. Sessions/Lease has acquire, renew, release and create_session_if_missing; Sessions/Commit
--     has commit_session_events, its checks in their order and its writes; Sessions/History runs any
--     calls one after another.
--   - Budgets (trpc_service/budgets.py, migration 0011): Budgets/Pricing has the pure estimates and
--     evaluate_level, Budgets/Levels chooses the budgets that apply, Budgets/Ledger has the SQL
--     statements, Budgets/Reserve and Budgets/Recovery have BudgetService.reserve, and Budgets/Settle
--     has settle, release and adjust.
--   - Governance (trpc_service/governance.py): Governance/Outbound has scan_messages, _apply_masks and
--     evaluate_outbound over the rules of Governance/Rules.
--   - Approvals (trpc_service/tool/approvals.py): Approvals/Store is MemoryApprovalStore and
--     Approvals/Service is ApprovalService, which the gate of ToolRuntime asks.
--   - Storage (trpc_service/storage.py): Storage/Memory is the memory adapter with its change feed,
--     Storage/Redis the cache over an authority, and Storage/Deletion the coordinator of erasures over
--     adapters of any kind, with these two in Storage/Deletion/Backends.
--   - ToolRuntime (trpc_service/tool/executor.py, trpc_service/tool/registry.py, find_replay of
--     trpc_service/tool/store.py): ToolRuntime/Invocation is invoke, over the definitions and parameters
--     of ToolRuntime/Registry, the approval gate of ToolRuntime/Gate with Approvals/Service, and the
--     retry contract of ToolRuntime/Contract.
--   - StorageMigrations (trpc_service/storage_migration.py): StorageMigrations/Machine is the state
--     machine, StorageMigrations/Evidence the evidence that the executor collects, and
--     StorageMigrations/Executor its backfill and catch-up over the adapters of Storage.
--   - Policies (trpc_service/policy_bundles.py, the signatures of trpc_service/governance.py, migration
--     0012): Policies/Signing has the compilation and signature of the rules of Governance/Rules, and
--     Policies/Bundles has PolicyBundleService; Policies/Interleaving runs the statements of two
--     activations at once.
--   - AuditChain (trpc_service/audit_chain/chain.py, with insert_audit of
--     trpc_service/admin_api/audit.py): the hash chain of one tenant's audit log and its verification.
--   - Failover (trpc_service/failover.py, migration 0031): the lease of the primary region.
--   - ExecutionBus (trpc_service/execution_bus.py): ExecutionBus/Envelope has ExecutionEnvelope and its
--     partition, ExecutionBus/Partitions InMemoryExecutionBus, ExecutionBus/Consumer process_once of
--     KafkaExecutionConsumer, and ExecutionBus/Dispatcher OutboxDispatcher.
--   - Prelude: the shared names, lists, integers, JSON values, and Action, a state with errors.
--
-- How the code is read: a table is one tenant's slice of it, since row level security keeps the
-- others apart, and a transaction is one step that a raised error rolls back (Action.transaction) and that
-- no other call interleaves; where the source does not ensure that (Policies/Bundles) the file says so, and
-- Policies/Interleaving has the statements that interleave.
-- The CHECKs of a table that a modelled statement may violate are tests of that statement.
-- What a loop over a list does is structural recursion on the list, so no fuel is needed; only
-- InMemoryExecutionBus.drain runs on fuel, for which one more than the pending envelopes is enough. A moment
-- is a number that the clock returned, an argument of the operation that reads it. Identifiers of
-- uuid4 and uuid7 come from a supply that gives each one once. Money is in whole micros, a natural
-- number; a limit with its allowance is an integer. Python's integers do not overflow; the bigint
-- columns are taken as unbounded.
--
-- Parameters, for code outside of the repository: the periods that strftime makes of a moment
-- (Budgets/Levels), regular expressions, json.dumps and str (Governance/Outbound), SHA-256
-- (StorageMigrations/Evidence, AuditChain/Chain), HMAC, json.dumps and pydantic's model_dump and
-- model_validate (Policies/Signing), SHA-256, str, json.loads and b64encode (ExecutionBus), the hash of
-- parameters and the tool's backend (ToolRuntime). Handlers, consumers, publishers and the Kafka
-- clients are functions or outcomes that the operations take.
--
-- Not modelled: HTTP and the channels, the connection pool, the LLM gateway, the admin API, the
-- archive of the audit log, backpressure and the workers; of the parts above, the reading of prices,
-- the routing of storage profiles, and the start and stop of the Kafka clients.
pub mod Approvals
pub mod AuditChain
pub mod Budgets
pub mod ExecutionBus
pub mod Failover
pub mod Governance
pub mod Policies
pub mod Prelude
pub mod Sessions
pub mod Storage
pub mod StorageMigrations
pub mod ToolRuntime
