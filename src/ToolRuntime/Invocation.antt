-- ===== src/ToolRuntime/Invocation.antt =====
-- ToolInvocationService.invoke of trpc_service/tool/executor.py over an in-memory registry, the approvals,
-- and the records of the tool-call store, DatabaseToolCallStore of trpc_service/tool/store.py.
pub mod Executions
pub mod Refusals
use trpc_agent_service_douzh.Prelude.{
  ℕ, ◌+◌, String, List, [], ◌∷◌, ◌++◌, Option, none, some, Bool, true, false, not, ◌&&◌, ◌||◌,
  str_eq, if◌then◌else◌, exists, find,
}
use trpc_agent_service_douzh.Prelude.Action.{Action, ok, err, pure, raise, ◌>>=◌, ◌>>◌}
use trpc_agent_service_douzh.Prelude.Json.{Fields}
use trpc_agent_service_douzh.ToolRuntime.Contract.{
  ToolInvocationStatus, succeeded, BackendEnd, Execution, execute_with_contract,
}
use trpc_agent_service_douzh.ToolRuntime.Registry.{
  ToolDefinition, resolve, has_name, is_auto_executable, params_invalid, python_error,
  validate_params,
}
use trpc_agent_service_douzh.ToolRuntime.Gate.{
  ToolInvocationRecord, ToolInvocationError, invocation_error, schema_error, approval_required,
  ToolState, Call, BlockedCall, record_blocked, gate_write_side_effect,
}

-- The arguments of `invoke`, with the clock's readings of the gate.
pub record Invocation : Type 0 where
  pub tenant_id : String
  pub tool_name : String
  pub params : Fields
  pub scopes : Option (List String)
  pub requested_by : String
  pub idempotency_key : Option String
  pub mode : String
  pub version : Option ℕ
  pub execution_id : Option String
  pub session_id : Option String
  pub release_id : Option String
  pub policy_version : Option String
  pub finds_at : ℕ
  pub consumes_at : ℕ
  pub waits_at : ℕ
  pub creates_at : ℕ

pub record ToolInvocationResult : Type 0 where
  pub status : ToolInvocationStatus
  pub row : ToolInvocationRecord
  pub replayed : Bool
  pub error_code : Option String

-- What the service was made with.
pub record Service : Type 0 where
  pub definitions : List ToolDefinition
  pub backend : ToolDefinition → Fields → ℕ → BackendEnd
  pub max_read_attempts : ℕ
  pub approvals_ttl : ℕ
  pub has_approvals : Bool
  pub canonical_params_hash : Fields → String

abbrev pub includes : List String → String → Bool
includes scopes scope = exists (str_eq scope) scopes

abbrev pub is_subset : List String → List String → Bool
is_subset [] scopes = true
is_subset (scope ∷ needed) scopes = includes scopes scope && is_subset needed scopes

abbrev pub effective_scopes : ToolDefinition → Option (List String) → List String
effective_scopes d none = d.scopes
effective_scopes d (some scopes) = scopes

abbrev pub has_succeeded_with : String → String → ToolInvocationRecord → Bool
has_succeeded_with tenant_id key row =
    str_eq row.tenant_id tenant_id
    && (elim row.idempotency_key [ none ↦ false | some k ↦ str_eq k key ])
    && (elim row.status [ succeeded ↦ true | _ ↦ false ])

-- `find_replay`
unfoldable pub find_replay :
    String → String → List ToolInvocationRecord → Option ToolInvocationRecord
find_replay tenant_id key records = find (has_succeeded_with tenant_id key) records

abbrev pub gate_call : Invocation → ToolDefinition → Fields → String → Call
gate_call i d params params_hash = record {
  definition = d;
  params = params;
  params_hash = params_hash;
  mode = i.mode;
  requested_by = i.requested_by;
  release_id = i.release_id;
  policy_version = i.policy_version;
  finds_at = i.finds_at;
  consumes_at = i.consumes_at;
  waits_at = i.waits_at;
  creates_at = i.creates_at;
}

abbrev pub blocked_of : Invocation → Option ToolDefinition → Fields → String → BlockedCall
blocked_of i d params error_code = record {
  tenant_id = i.tenant_id;
  tool_name = i.tool_name;
  params = params;
  requested_by = i.requested_by;
  error_code = error_code;
  tool_version = elim d [ none ↦ none | some d ↦ some d.version ];
  side_effect = elim d [ none ↦ none | some d ↦ some d.side_effect ];
  execution_id = i.execution_id;
  session_id = i.session_id;
  release_id = i.release_id;
}

abbrev pub record_of :
    Invocation
    → ToolDefinition
    → Fields
    → (params_hash : String) → Execution
    → ℕ
    → ToolInvocationRecord
record_of i d params params_hash e call_id = record {
  call_id = call_id;
  tenant_id = i.tenant_id;
  tool_name = d.name;
  tool_version = some d.version;
  side_effect = some d.side_effect;
  params = params;
  params_hash = params_hash;
  idempotency_key = i.idempotency_key;
  status = e.status;
  attempts = e.attempts;
  cost_micros = d.cost_per_call_micros;
  requested_by = i.requested_by;
  execution_id = i.execution_id;
  session_id = i.session_id;
  release_id = i.release_id;
  error_code = e.error_code;
  result = e.result;
  data_classification = some d.data_classification;
}

module _ (service : Service) where
  abbrev pub hash : Fields → String
  hash = service.canonical_params_hash

  -- A refusal, with its record.
  abbrev pub block :
      {A : Type 0} → BlockedCall → ToolInvocationError → Action ToolState ToolInvocationError A
  block b error s = (err error, record_blocked hash b s)

  -- The call itself, with its record.
  unfoldable pub execute :
      Invocation
      → ToolDefinition
      → Fields
      → Action ToolState ToolInvocationError ToolInvocationResult
  execute i d params s =
      let e =
        execute_with_contract service.max_read_attempts d.side_effect d.supports_idempotency
          i.idempotency_key (service.backend d params) in
      let row = record_of i d params (hash params) e s.next_call in
      (
        ok (record { status = e.status; row = row; replayed = false; error_code = e.error_code }),
        record s { records = s.records ++ (row ∷ []); next_call = s.next_call + 1 },
      )

  abbrev pub replay : ToolInvocationRecord → ToolInvocationResult
  replay row = record {
    status = row.status;
    row = row;
    replayed = true;
    error_code = row.error_code;
  }

  unfoldable pub replay_or_execute :
      Invocation
      → ToolDefinition
      → Fields
      → Action ToolState ToolInvocationError ToolInvocationResult
  replay_or_execute i d params s = elim i.idempotency_key [
    | none ↦ execute i d params s
    | some key ↦ elim (find_replay i.tenant_id key s.records) [
      | none ↦ execute i d params s
      | some row ↦
          if str_eq row.params_hash (hash params)
          then (ok (replay row), s)
          else block (blocked_of i (some d) params "TOOL_IDEMPOTENCY_CONFLICT")
              (invocation_error "TOOL_IDEMPOTENCY_CONFLICT") s
    ]
  ]

  -- The gate, for a side effect that wants an approval.
  unfoldable pub pass_gate :
      Invocation → ToolDefinition → Fields → Action ToolState ToolInvocationError (Option ℕ)
  pass_gate i d params s =
      if is_auto_executable d.side_effect
      then (ok none, s)
      else gate_write_side_effect hash service.approvals_ttl service.has_approvals
          (gate_call i d params (hash params)) s

  unfoldable pub run_governed :
      Invocation
      → ToolDefinition
      → Fields
      → Action ToolState ToolInvocationError ToolInvocationResult
  run_governed i d params = do
    waiting ← pass_gate i d params
    elim waiting [
      | some approval_id ↦
          block (blocked_of i (some d) params "TOOL_APPROVAL_REQUIRED")
            (approval_required approval_id)
      | none ↦ replay_or_execute i d params
    ]

  unfoldable pub invoke : Invocation → Action ToolState ToolInvocationError ToolInvocationResult
  invoke i s = elim (resolve service.definitions i.tenant_id i.tool_name i.version) [
    | none ↦
        let code =
          if has_name service.definitions i.tool_name
          then "TOOL_TENANT_DENIED"
          else "TOOL_NOT_FOUND" in
        block (blocked_of i none i.params code) (invocation_error code) s
    | some d ↦
        if is_subset d.scopes (effective_scopes d i.scopes)
        then elim (validate_params d i.params) [
          | err params_invalid ↦
              block (blocked_of i (some d) i.params "TOOL_PARAMS_INVALID")
                (invocation_error "TOOL_PARAMS_INVALID") s
          | err python_error ↦ (err schema_error, s)
          | ok params ↦ run_governed i d params s
        ]
        else block (blocked_of i (some d) i.params "TOOL_SCOPE_DENIED")
            (invocation_error "TOOL_SCOPE_DENIED") s
  ]
